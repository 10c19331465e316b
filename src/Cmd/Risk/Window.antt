-- ===== src/Cmd/Risk/Window.antt =====
-- The hits of a bucket of cmd/risk.go that lie in the window, and what `prune` makes of them.
use open_gfw_next.Base.{ℕ, ◌+◌, ◌≤◌, ◌≡◌, refl, List, [], ◌∷◌, ◌++◌, arith, leb, if◌then◌else◌}
use open_gfw_next.Cmd.Risk.{Hit, Bucket, prune_loop, prune}

-- the hits of the last `window` nanoseconds
pub recent : ℕ → ℕ → List Hit → List Hit
recent window now [] = []
recent window now (h ∷ hs) =
    let rest = recent window now hs in if leb now (h.time + window) then h ∷ rest else rest

-- the sum of the weights
pub weigh : List Hit → ℕ
weigh [] = 0
weigh (h ∷ hs) = h.weight + weigh hs

pub weigh-nil : weigh [] ≡ 0
unfolding weigh
weigh-nil = refl

pub prune_loop-recent :
    (w now : ℕ) (hs : List Hit) → prune_loop w now hs ≡ (recent w now hs, weigh (recent w now hs))
unfolding prune_loop recent weigh
prune_loop-recent w now [] = refl
prune_loop-recent w now (h ∷ hs) = ground (arith, prune_loop-recent w now hs)

pub weigh-recent_le : (w now : ℕ) (hs : List Hit) → weigh (recent w now hs) ≤ weigh hs
unfolding recent weigh
weigh-recent_le w now [] = ground arith
weigh-recent_le w now (h ∷ hs) = ground (arith, weigh-recent_le w now hs)

pub recent-recent :
    (w now later : ℕ) (hs : List Hit)
    → now ≤ later
    → recent w later (recent w now hs) ≡ recent w later hs
unfolding recent
recent-recent w now later [] le = refl
recent-recent w now later (h ∷ hs) le = ground (arith, recent-recent w now later hs le)

pub recent-append :
    (w now : ℕ) (xs ys : List Hit) → recent w now (xs ++ ys) ≡ recent w now xs ++ recent w now ys
unfolding recent
recent-append w now [] ys = refl
recent-append w now (h ∷ hs) ys = ground (arith, recent-append w now hs ys)

pub recent-nil : (w now : ℕ) → recent w now [] ≡ []
unfolding recent
recent-nil w now = refl

pub recent_new : (w now : ℕ) (h : Hit) → h.time ≡ now → recent w now (h ∷ []) ≡ h ∷ []
unfolding recent
recent_new w now h e = ground arith

-- the weight once a hit has come last
pub weigh_last : (hs : List Hit) (h : Hit) → weigh (hs ++ (h ∷ [])) ≡ weigh hs + h.weight
unfolding weigh
weigh_last [] h = ground arith
weigh_last (g ∷ hs) h = ground (arith, weigh_last hs h)

pub prune-recent :
    (w : ℕ) (b : Bucket) (now : ℕ)
    → prune w b now ≡ record b { hits = recent w now b.hits; score = weigh (recent w now b.hits) }
unfolding prune
prune-recent w b now = ground (arith, prune_loop-recent w now b.hits)
