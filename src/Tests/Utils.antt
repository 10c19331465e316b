-- ===== src/Tests/Utils.antt =====
-- analyzer/utils at concrete inputs.
use open_gfw_next.Base.{◌≡◌, refl, true, false, some, [], ◌∷◌}
use open_gfw_next.Utils.ByteBuffer.{ByteBuffer, get_uint16, get_uint32}

abbrev hello : ByteBuffer
hello = record { buf = 104 ∷ 105 ∷ 0 ∷ 33 ∷ [] }

big_endian : (get_uint16 hello false false).1 ≡ some 26729
unfolding get_uint16
big_endian = refl

little_endian : (get_uint32 hello true false).1 ≡ some 553675112
unfolding get_uint32
little_endian = refl
