-- ===== src/Tests/Ssh.antt =====
-- SSH exchange lines at concrete inputs.
use open_gfw_next.Base.{◌≡◌, refl, none, some, [], ◌∷◌, ◌++◌}
use open_gfw_next.Utils.ByteBuffer.{is_prefix}
use open_gfw_next.Utils.Strings.{codes}
use open_gfw_next.Utils.Strings.Split.{fields}
use open_gfw_next.Utils.Lsm.{next, cancel}
use open_gfw_next.Analyzer.Tls.Encode.{buffer}
use open_gfw_next.Analyzer.Ssh.{Exchange, parse_exchange_line, parse_line}
use open_gfw_next.Analyzer.Ssh.Lines.{line_of, Fits, parse_exchange_line-line_of}

-- the line "SSH-2-a b"
abbrev side : Exchange
side = record { protocol = codes "2"; software = codes "a"; comments = some (codes "b") }

side-Fits : Fits side
side-Fits = record {
  protocol_word = (refl, tt);
  protocol_plain = (refl, tt);
  software_word = (refl, tt);
  comments_word = ((refl, tt), refl);
}

parse_exchange_line-line_of_example :
    parse_exchange_line (buffer (line_of side ++ (13 ∷ (10 ∷ (7 ∷ [])))))
    ≡ (buffer (7 ∷ []), next, some side)
parse_exchange_line-line_of_example = parse_exchange_line-line_of side (7 ∷ []) side-Fits

-- a no-break space is a space
no_break : fields (97 ∷ (194 ∷ (160 ∷ (98 ∷ [])))) ≡ codes "a" ∷ (codes "b" ∷ [])
unfolding fields
no_break = refl

-- comments of two words end the analysis
two_words :
    parse_line (codes "SSH-2.0-OpenSSH_9.6 FreeBSD portable" ++ (13 ∷ (10 ∷ []))) ≡ (cancel, none)
unfolding parse_line is_prefix
two_words = refl
