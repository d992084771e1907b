-- ===== src/Waits/Top/Laws.antt =====
-- internal/waitring and internal/dwaits: what Top adds up, and how it orders it.
use isitsql.Common.{
  ℕ, ◌+◌, ◌≡◌, refl, sym, ap, ◌∙◌, inl, inr, Bool, true, false, none, some, List, [], ◌∷◌, Text,
  map, take, text_ltb, subst, text_eq, text_eq_iff, ltb, ◌<◌, ◌⊎◌, ==_iff, ◌==◌, if◌then◌else◌, All,
  Bool-cases, Option-cases, arith,
}
use isitsql.Common.Order.{text_ltb_asym, text_ltb_up}
use mathlib.Core.List.{Permᴰ}
use isitsql.Common.Sort.{IsOrdered, sort_by, sort_by-Permᴰ, sort_by-IsOrdered}
use isitsql.Maps.{Map, lookup, text_key}
use isitsql.Maps.Laws.{IsMap}
use isitsql.Rings.WaitRing.{Ring, values}
use isitsql.Waits.Box.{add_to}
use isitsql.Waits.Box.Laws.{amount, amount-add_to}
use isitsql.Waits.Box.Run.{amounts}
use isitsql.Waits.Repository.{WaitList, Repository, repository_values}
use isitsql.Waits.Top.{
  SortedMapInt64, value_of, less, add_waits, add_lists, keys_of, top, repository_top,
}

abbrev add_wait : Text → ℕ → Map Text ℕ → Map Text ℕ
add_wait wg ms wgl = if ltb 0 ms then add_to wg ms wgl else wgl

pub nothing_added : (n : ℕ) (c : Bool) (ms : ℕ) → ltb 0 ms ≡ false → n ≡ n + (if c then ms else 0)
nothing_added n true ms h = ground arith
nothing_added n false ms h = omega arith

amount-add_wait :
    (w wg : Text) (ms : ℕ) (wgl : Map Text ℕ)
    → amount w (add_wait wg ms wgl) ≡ amount w wgl + (if text_eq wg w then ms else 0)
amount-add_wait w wg ms wgl = elim (Bool-cases (ltb 0 ms)) [
  | inl some_time ↦ rw some_time (amount-add_to w wg ms wgl)
  | inr no_time ↦ rw (add_wait, no_time) (nothing_added (amount w wgl) (text_eq wg w) ms no_time)
]

amount-cons :
    (w wg : Text) (ms : ℕ) (m : Map Text ℕ)
    → lookup wg m ≡ none
    → amount w ((wg, ms) ∷ m) ≡ (if text_eq wg w then ms else 0) + amount w m
unfolding lookup
amount-cons w wg ms m once = elim (Bool-cases (text_eq wg w)) [
  | inl hit ↦
      let same = (text_eq_iff wg w).0 hit in
      let absent : amount w m ≡ 0 =
        ap (λ o. elim o [ some n ↦ n | none ↦ 0 ]) (ap (λ k. lookup k m) (sym same) ∙ once) in
      rw (amount, lookup, hit) (omega arith)
  | inr miss ↦ rw (amount, lookup, miss) (omega arith)
]

amount-add_waits :
    (w : Text) (m wgl : Map Text ℕ)
    → IsMap m
    → amount w (add_waits m wgl) ≡ amount w wgl + amount w m
unfolding add_waits lookup
amount-add_waits w [] wgl h = omega arith
amount-add_waits w ((wg, ms) ∷ m) wgl (once, h) =
    let rest = amount-add_waits w m (add_wait wg ms wgl) h in
    let first = amount-add_wait w wg ms wgl in let here = amount-cons w wg ms m once in omega arith

amount-add_lists :
    (w : Text) (lists : List WaitList) (wgl : Map Text ℕ)
    → All (λ l. IsMap l.waits) lists
    → amount w (add_lists lists wgl) ≡ amount w wgl + amounts w (map WaitList.waits lists)
unfolding add_lists
amount-add_lists w [] wgl h = omega arith
amount-add_lists w (wv ∷ more) wgl (h, hs) =
    let rest = amount-add_lists w more (add_waits wv.waits wgl) hs in
    let first = amount-add_waits w wv.waits wgl h in omega arith

-- The order of two keys with their values
abbrev ahead : ℕ → Text → ℕ → Text → Bool
ahead a i b j = if a == b then text_ltb i j else ltb b a

ahead_asym : (a : ℕ) (i : Text) (b : ℕ) (j : Text) → ahead a i b j ≡ true → ahead b j a i ≡ false
ahead_asym a i b j h = elim (Bool-cases (a == b)) [
  | inl same ↦
      let back : (b == a) ≡ true = ground arith in
      rw back (text_ltb_asym i j (sym (ap (λ c. if c then text_ltb i j else ltb b a) same) ∙ h))
  | inr other ↦
      let back : (b == a) ≡ false = ground arith in
      let more : ltb b a ≡ true = sym (ap (λ c. if c then text_ltb i j else ltb b a) other) ∙ h in
      rw back (ground arith)
]

-- What is not ahead has no more, and if it has as much, it does not come before in the alphabet.
not_ahead :
    (a : ℕ) (i : Text) (b : ℕ) (j : Text)
    → ahead a i b j ≡ false
    → (ltb b a ≡ false) × ((a == b) ≡ true → text_ltb i j ≡ false)
not_ahead a i b j h = elim (Bool-cases (a == b)) [
  | inl same ↦
      let k : text_ltb i j ≡ false = sym (ap (λ c. if c then text_ltb i j else ltb b a) same) ∙ h in
      let no_more : ltb b a ≡ false = ground arith in (no_more, λ e. k)
  | inr other ↦
      (sym (ap (λ c. if c then text_ltb i j else ltb b a) other) ∙ h, λ e. absurd (cc (e, other)))
]

ahead_up :
    (a : ℕ) (i : Text) (b : ℕ) (j : Text) (c : ℕ) (k : Text)
    → ahead b j a i ≡ false
    → ahead c k b j ≡ false
    → ahead c k a i ≡ false
ahead_up a i b j c k h g =
    let (ab, texts) = not_ahead b j a i h in
    let (bc, texts') = not_ahead c k b j g in
    elim (Bool-cases (c == a)) [
      | inl same ↦
          let ba : (b == a) ≡ true = ground arith in
          let cb : (c == b) ≡ true = ground arith in
          rw same (text_ltb_up i j k (texts ba) (texts' cb))
      | inr other ↦ let no_more : ltb a c ≡ false = ground arith in rw other no_more
    ]

-- Of two keys, the first has the larger value; or they have equal ones, and the second is not before it in the alphabet.
abbrev pub ComesFirst : Map Text ℕ → Text → Text → Type 0
ComesFirst m i j =
    (value_of j m < value_of i m) ⊎ ((value_of i m ≡ value_of j m) × (text_ltb j i ≡ false))

-- Each key comes first before all the keys behind it.
abbrev pub IsFalling : Map Text ℕ → List Text → Type 0
IsFalling m [] = Unit
IsFalling m (i ∷ keys) = All (ComesFirst m i) keys × IsFalling m keys

larger : (a b : ℕ) → (a == b) ≡ false → ltb b a ≡ false → a < b
larger a b other no_more = ground arith

not_less-ComesFirst : (m : Map Text ℕ) (i j : Text) → less m j i ≡ false → ComesFirst m i j
not_less-ComesFirst m i j h =
    let (no_more, texts) = not_ahead (value_of j m) j (value_of i m) i h in
    elim (Bool-cases (value_of j m == value_of i m)) [
      | inl same ↦ inr (sym ((==_iff (value_of j m) (value_of i m)).0 same), texts same)
      | inr other ↦ inl (larger (value_of j m) (value_of i m) other no_more)
    ]

All-ComesFirst :
    (m : Map Text ℕ) (i : Text) (keys : List Text)
    → All (λ j. less m j i ≡ false) keys
    → All (ComesFirst m i) keys
All-ComesFirst m i [] h = tt
All-ComesFirst m i (j ∷ keys) (first, h) =
    (not_less-ComesFirst m i j first, All-ComesFirst m i keys h)

IsOrdered-IsFalling :
    (m : Map Text ℕ) (keys : List Text) → IsOrdered (less m) keys → IsFalling m keys
IsOrdered-IsFalling m [] o = tt
IsOrdered-IsFalling m (i ∷ keys) (first, o) =
    (All-ComesFirst m i keys first, IsOrdered-IsFalling m keys o)

-- The keys of a sorted map: all of them are in falling order, and the first ones are shown.
abbrev pub ShowsFirst : ℕ → SortedMapInt64 → Type 0
ShowsFirst n t =
    (sorted : List Text) × Permᴰ (keys_of t.base_map) sorted
    × IsFalling t.base_map sorted
    × (t.sorted_keys ≡ (if n == 0 then sorted else take n sorted))

pub top-ShowsFirst : (n : ℕ) (r : Ring WaitList) → ShowsFirst n (top n r)
unfolding top
top-ShowsFirst n r =
    let wgl = add_lists (values r) [] in
    let ordered =
      sort_by-IsOrdered (less wgl) (λ i j. ahead_asym (value_of i wgl) i (value_of j wgl) j)
        (λ i j k. ahead_up (value_of i wgl) i (value_of j wgl) j (value_of k wgl) k)
        (keys_of wgl) in
    (
      sort_by (less wgl) (keys_of wgl),
      sort_by-Permᴰ (less wgl) (keys_of wgl),
      IsOrdered-IsFalling wgl (sort_by (less wgl) (keys_of wgl)) ordered,
      refl,
    )

-- Where each list of a server's ring has each wait once: Top adds up each wait over the lists that Values
-- gives, and shows the five waits that come first, in the order of falling totals, and of names where
-- they are equal, or all of them if they are fewer. It shows none of a closed repository or an unknown server.
pub repository_top-values :
    (key : Text) (n : ℕ) (r : Repository)
    → All (λ l. IsMap l.waits) (repository_values key r)
    → ((w : Text)
        → value_of w (repository_top key n r).base_map
          ≡ amounts w (map WaitList.waits (repository_values key r)))
      × ShowsFirst 5 (repository_top key n r)
unfolding repository_top repository_values top
repository_top-values key n r h = elim (Bool-cases r.is_open) [
  | inr closed ↦
      rw (repository_top, repository_values, closed) (λ w. refl, ([], Permᴰ.nil, tt, refl))
  | inl is_open ↦ elim (Option-cases (lookup key r.servers)) [
    | inl unknown ↦
        rw (repository_top, repository_values, is_open)
          (rw (unknown) (λ w. refl, ([], Permᴰ.nil, tt, refl)))
    | inr (ring, known) ↦
        let found : repository_values key r ≡ values ring =
          rw (repository_values, is_open) (rw known refl) in
        let once = subst (All (λ l. IsMap l.waits)) found h in
        let total = λ (w : Text). amount-add_lists w (values ring) [] once in
        rw (repository_top, repository_values, is_open)
          (rw known (λ w. let t = total w in omega arith, top-ShowsFirst 5 ring))
  ]
]
