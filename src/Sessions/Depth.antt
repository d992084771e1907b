-- ===== src/Sessions/Depth.antt =====
-- internal/mssql/session/session.go: when the bound on the depth is enough.
use isitsql.Common.{
  suc, ◌≤◌, ◌≡◌, sym, ap, ◌∙◌, inl, inr, true, false, not, Bool-cases, or_left, or_right, some,
  List, [], ◌∷◌, length, All, arith, if◌then◌else◌,
}
use isitsql.Common.Int.{ℤ}
use isitsql.Maps.{Map, lookup, keep_if}
use isitsql.Maps.Laws.{lookup-keep_if_kept}
use isitsql.Sessions.{same_id, id_key, contains, Blocking, head_blocker, max_depth}
use isitsql.Sessions.Chains.{Walk, here, step, AreDistinct, IsHead, head_blocker-from}

-- The map without one key
abbrev without : ℤ → Map ℤ ℤ → Map ℤ ℤ
without v m = keep_if (λ k. not (same_id k v)) m

length-without_le : (v : ℤ) (m : Map ℤ ℤ) → length (without v m) ≤ length m
unfolding keep_if
length-without_le v [] = omega arith
length-without_le v ((k, b) ∷ m) = elim (Bool-cases (same_id k v)) [
  | inl e ↦ rw (without, e) (omega (arith, length-without_le v m))
  | inr e ↦ rw (without, e) (omega (arith, length-without_le v m))
]

length-without :
    (v b : ℤ) (m : Map ℤ ℤ) → lookup v m ≡ some b → suc (length (without v m)) ≤ length m
unfolding keep_if lookup
length-without v b [] h = absurd (cc h)
length-without v b ((k, c) ∷ m) h = elim (Bool-cases (same_id k v)) [
  | inl e ↦ rw (without, e) (omega (arith, length-without_le v m))
  | inr e ↦
      let rest : lookup v m ≡ some b = sym (ap (λ t. if t then some c else lookup v m) e) ∙ h in
      rw (without, e) (omega (arith, length-without v b m rest))
]

-- The map has each of the keys.
abbrev HasKeys : Map ℤ ℤ → List ℤ → Type 0
HasKeys m = All (λ v. (b : ℤ) × (lookup v m ≡ some b))

HasKeys-without :
    (v : ℤ) (vs : List ℤ) (m : Map ℤ ℤ)
    → contains vs v ≡ false
    → HasKeys m vs
    → HasKeys (without v m) vs
HasKeys-without v [] m h ks = tt
HasKeys-without v (w ∷ vs) m h ((b, e), ks) =
    let apart : not (same_id w v) ≡ true = ap not (or_left (same_id w v) (contains vs v) h) in
    (
      (b, lookup-keep_if_kept w (λ k. not (same_id k v)) m apart ∙ e),
      HasKeys-without v vs m (or_right (same_id w v) (contains vs v) h) ks,
    )

-- A map has at least as many entries as distinct keys.
length-HasKeys : (vs : List ℤ) (m : Map ℤ ℤ) → AreDistinct vs → HasKeys m vs → length vs ≤ length m
length-HasKeys [] m d ks = omega arith
length-HasKeys (v ∷ vs) m (once, d) ((b, e), ks) =
    let fewer = length-HasKeys vs (without v m) d (HasKeys-without v vs m once ks) in
    let less = length-without v b m e in omega arith

Walk-HasKeys : {m : Map ℤ ℤ} {a b : ℤ} {vs : List ℤ} → Walk m a vs b → HasKeys m vs
Walk-HasKeys here = tt
Walk-HasKeys (step {c = c} e w) = ((c, e), Walk-HasKeys w)

-- Where at most 100 sessions are blocked, headBlocker finds the end of the chain of blockers of any session:
-- the one that is not blocked, the last of the distinct parents, or the one where the chain comes back to the
-- parents.
pub head_blocker-IsHead :
    (m : Map ℤ ℤ) (s : ℤ)
    → length m ≤ max_depth
    → (b : Blocking) × (head_blocker (suc max_depth) s m [] [] ≡ some b) × IsHead m s b
head_blocker-IsHead m s few = elim (head_blocker-from (suc max_depth) m s s [] [] here tt) [
  | inl found ↦ found
  | inr (lost, (q, y, w, d, n)) ↦
      let many = length-HasKeys q m d (Walk-HasKeys w) in absurd (omega arith)
]
