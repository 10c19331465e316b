-- ===== src/Analyzer/Trojan/Tree.antt =====
-- `isTrojanSeq` of analyzer/tcp/trojan.go: the decision tree, its larger branches named for the test
-- that leads into them. A `length` is the payload sent in one direction before the other side speaks.
use open_gfw_next.Base.{ℕ, Bool, true, false, leb, if◌then◌else◌}

-- [4]int
pub record Seq : Type 0 where
  pub length1 : ℕ
  pub length2 : ℕ
  pub length3 : ℕ
  pub length4 : ℕ

pub second_to_157 : Seq → Bool
second_to_157 s =
    if leb s.length1 156
    then (if leb s.length3 108 then (false) else (false))
    else (if leb s.length1 892
        then (if leb s.length3 40
            then (false)
            else (if leb s.length3 788
                then (if leb s.length4 185
                    then (if leb s.length1 411 then (true) else (false))
                    else (if leb s.length2 112 then (false) else (true)))
                else (if leb s.length3 1346
                    then (if leb s.length1 418 then (false) else (true))
                    else (false))))
        else (if leb s.length2 120
            then (if leb s.length2 63
                then (false)
                else (if leb s.length4 653 then (false) else (false)))
            else (false)))

pub second_158_to_286 : Seq → Bool
second_158_to_286 s =
    if leb s.length1 1123
    then (if leb s.length3 70
        then (false)
        else (if leb s.length1 659
            then (if leb s.length3 370 then (true) else (false))
            else (if leb s.length4 272 then (false) else (true))))
    else (if leb s.length4 537
        then (if leb s.length2 276
            then (if leb s.length3 1877 then (false) else (false))
            else (false))
        else (if leb s.length1 1466
            then (if leb s.length1 1435 then (false) else (true))
            else (if leb s.length2 193 then (false) else (false))))

pub second_287_to_2431 : Seq → Bool
second_287_to_2431 s =
    if leb s.length1 284
    then (if leb s.length1 277
        then (if leb s.length2 726
            then (false)
            else (if leb s.length2 768 then (true) else (false)))
        else (if leb s.length2 782
            then (if leb s.length4 783 then (true) else (false))
            else (false)))
    else (if leb s.length2 492
        then (if leb s.length2 396
            then (if leb s.length2 322 then (false) else (false))
            else (if leb s.length4 971 then (false) else (true)))
        else (if leb s.length2 2128
            then (if leb s.length2 1418 then (false) else (false))
            else (if leb s.length3 103 then (false) else (false))))

pub first_over_206 : Seq → Bool
unfolding second_158_to_286 second_287_to_2431
first_over_206 s = if leb s.length2 286 then (second_158_to_286 s) else (second_287_to_2431 s)

pub second_158_to_2431 : Seq → Bool
unfolding first_over_206
second_158_to_2431 s =
    if leb s.length1 206
    then (if leb s.length1 185
        then (if leb s.length1 171
            then (false)
            else (if leb s.length4 211 then (false) else (false)))
        else (if leb s.length2 251 then (true) else (false)))
    else (first_over_206 s)

pub second_to_2431 : Seq → Bool
unfolding second_to_157 second_158_to_2431
second_to_2431 s = if leb s.length2 157 then (second_to_157 s) else (second_158_to_2431 s)

pub third_over_220 : Seq → Bool
third_over_220 s =
    if leb s.length1 664
    then (if leb s.length3 411
        then (if leb s.length3 383
            then (if leb s.length4 346 then (true) else (false))
            else (if leb s.length1 445 then (true) else (false)))
        else (if leb s.length2 3708
            then (if leb s.length4 307 then (true) else (false))
            else (if leb s.length2 4656 then (false) else (false))))
    else (if leb s.length1 1055
        then (if leb s.length3 580
            then (if leb s.length1 724 then (true) else (false))
            else (if leb s.length1 678 then (false) else (true)))
        else (if leb s.length2 5352
            then (if leb s.length3 1586 then (false) else (false))
            else (if leb s.length4 2173 then (true) else (false))))

pub third_over_85 : Seq → Bool
unfolding third_over_220
third_over_85 s =
    if leb s.length3 220
    then (if leb s.length4 1173
        then (if leb s.length1 874
            then (if leb s.length4 337
                then (if leb s.length4 68 then (true) else (true))
                else (if leb s.length1 667 then (true) else (true)))
            else (if leb s.length3 108
                then (if leb s.length1 1930 then (true) else (true))
                else (if leb s.length2 5383 then (false) else (true))))
        else (false))
    else (third_over_220 s)

pub second_to_6232 : Seq → Bool
unfolding third_over_85
second_to_6232 s =
    if leb s.length3 85
    then (if leb s.length2 3599 then (false) else (if leb s.length1 613 then (false) else (false)))
    else (third_over_85 s)

pub first_over_670 : Seq → Bool
first_over_670 s =
    if leb s.length1 795
    then (if leb s.length2 6334
        then (if leb s.length2 6288 then (true) else (false))
        else (if leb s.length4 6404
            then (if leb s.length2 8194 then (true) else (true))
            else (if leb s.length2 8924 then (false) else (true))))
    else (if leb s.length3 732
        then (if leb s.length1 1397
            then (if leb s.length3 179 then (false) else (false))
            else (if leb s.length1 1976 then (false) else (false)))
        else (if leb s.length1 2840
            then (if leb s.length1 2591 then (false) else (true))
            else (false)))

pub second_to_9408 : Seq → Bool
unfolding first_over_670
second_to_9408 s =
    if leb s.length1 670
    then (if leb s.length4 76
        then (if leb s.length3 175 then (true) else (true))
        else (if leb s.length2 9072
            then (if leb s.length3 314
                then (if leb s.length3 179 then (false) else (false))
                else (if leb s.length4 708 then (false) else (false)))
            else (true)))
    else (first_over_670 s)

pub second_over_9408 : Seq → Bool
second_over_9408 s =
    if leb s.length4 30
    then (false)
    else (if leb s.length2 13314
        then (if leb s.length4 1786
            then (if leb s.length2 13018
                then (if leb s.length4 869 then (false) else (false))
                else (true))
            else (if leb s.length3 775 then (false) else (false)))
        else (if leb s.length4 73
            then (false)
            else (if leb s.length3 640
                then (if leb s.length3 237 then (false) else (false))
                else (if leb s.length2 43804 then (false) else (false)))))

pub second_over_6232 : Seq → Bool
unfolding second_to_9408 second_over_9408
second_over_6232 s = if leb s.length2 9408 then (second_to_9408 s) else (second_over_9408 s)

pub second_over_2431 : Seq → Bool
unfolding second_to_6232 second_over_6232
second_over_2431 s = if leb s.length2 6232 then (second_to_6232 s) else (second_over_6232 s)

unfoldable pub is_trojan_seq : Seq → Bool
unfolding second_to_2431 second_over_2431
is_trojan_seq s = if leb s.length2 2431 then (second_to_2431 s) else (second_over_2431 s)
