-- ===== src/Sessions/Chains.antt =====
-- internal/mssql/session/session.go: the chain of blockers that headBlocker follows.
use isitsql.Common.{
  ℕ, zero, suc, ◌+◌, ◌≡◌, ◌⊎◌, refl, sym, ap, ◌∙◌, inl, inr, true, false, ◌||◌, Bool-cases, or_none,
  or_left, or_right, or_assoc, ap₂, Option-cases, none, some, List, [], ◌∷◌, ◌++◌, Text, codes,
  length, length-append, arith,
}
use isitsql.Common.Int.{ℤ}
use isitsql.Maps.{Map, lookup}
use isitsql.Maps.Laws.{same-false}
use isitsql.Sessions.{same_id, same_id_iff, id_key, id_text, contains, Blocking, head_blocker}

-- Each session of the list is blocked by the next, and the last of them by b.
pub data Walk (m : Map ℤ ℤ) : ℤ → List ℤ → ℤ → Type 0 where
  here : {a : ℤ} → Walk m a [] a
  step : {a c b : ℤ} {vs : List ℤ} → lookup a m ≡ some c → Walk m c vs b → Walk m a (a ∷ vs) b

abbrev pub AreDistinct : List ℤ → Type 0
AreDistinct [] = Unit
AreDistinct (v ∷ vs) = (contains vs v ≡ false) × AreDistinct vs

-- Where a chain of blockers ends: at a session that is not blocked, which is the last of the parents, or where
-- it comes back to one of them.
pub data IsHead (m : Map ℤ ℤ) (s : ℤ) : Blocking → Type 0 where
  ended :
      {h : ℤ} {vs : List ℤ} {path : Text}
      → Walk m s vs h
      → AreDistinct (vs ++ h ∷ [])
      → lookup h m ≡ none
      → IsHead m s (record { head = h; parents = vs ++ h ∷ []; path = path })
  circled :
      {h : ℤ} {vs : List ℤ} {path : Text}
      → Walk m s vs h
      → AreDistinct vs
      → contains vs h ≡ true
      → IsHead m s (record { head = h; parents = vs; path = path })

step_last :
    {m : Map ℤ ℤ} {a b c : ℤ} {vs : List ℤ}
    → Walk m a vs b
    → lookup b m ≡ some c
    → Walk m a (vs ++ b ∷ []) c
step_last here e = step e here
step_last (step d w) e = step d (step_last w e)

contains-append :
    (vs : List ℤ) (b v : ℤ) → contains (vs ++ b ∷ []) v ≡ (contains vs v || same_id b v)
contains-append [] b v = or_none (same_id b v)
contains-append (w ∷ vs) b v =
    ap (λ c. same_id w v || c) (contains-append vs b v)
    ∙ sym (or_assoc (same_id w v) (contains vs v) (same_id b v))

AreDistinct-append :
    (vs : List ℤ) (b : ℤ) → AreDistinct vs → contains vs b ≡ false → AreDistinct (vs ++ b ∷ [])
AreDistinct-append [] b d h = (refl, tt)
AreDistinct-append (v ∷ vs) b (once, d) h =
    let apart : same_id b v ≡ false =
      same-false b v
        (λ e. cc (or_left (same_id v b) (contains vs b) h, (same_id_iff v b).1 (sym e))) in
    (
      contains-append vs b v ∙ ap₂ (λ x y. x || y) once apart,
      AreDistinct-append vs b d (or_right (same_id v b) (contains vs b) h),
    )

-- Following the chain from where it came to, with the calls that are left: it finds the head, or has walked
-- through as many distinct sessions as there were calls.
pub head_blocker-from :
    (calls : ℕ) (m : Map ℤ ℤ) (s id : ℤ) (p : List ℤ) (path : Text)
    → Walk m s p id
    → AreDistinct p
    → ((b : Blocking) × (head_blocker calls id m p path ≡ some b) × IsHead m s b)
      ⊎ ((head_blocker calls id m p path ≡ none)
          × ((q : List ℤ) × (y : ℤ) × Walk m s q y × AreDistinct q × (length q ≡ length p + calls)))
unfolding head_blocker
head_blocker-from zero m s id p path w d =
    let n : length p ≡ length p + 0 = omega arith in inr (refl, (p, id, w, d, n))
head_blocker-from (suc calls) m s id p path w d = elim (Bool-cases (contains p id)) [
  | inl back ↦
      inl
        (record { head = id; parents = p; path = path }, rw (head_blocker, back), circled w d back)
  | inr new ↦
      let p' = p ++ id ∷ [] in
      let path' = codes "/" ++ id_text id ++ path in
      let d' = AreDistinct-append p id d new in
      elim (Option-cases (lookup id m)) [
        | inl e ↦ inl (
          record { head = id; parents = p'; path = path' },
          rw (head_blocker, new) (rw e),
          ended w d' e,
        )
        | inr (bid, e) ↦ elim (head_blocker-from calls m s bid p' path' (step_last w e) d') [
          | inl (b, done, h) ↦ inl (b, rw (head_blocker, new) (rw e done), h)
          | inr (lost, (q, y, w', dq, n)) ↦
              let k : length q ≡ length p + suc calls = omega (arith, length-append p (id ∷ [])) in
              inr (rw (head_blocker, new) (rw e lost), (q, y, w', dq, k))
        ]
      ]
]
