-- ===== src/Semver/Order/Idents.antt =====
-- The order of identifiers and of lists of identifiers.
use isitsql.Common.{
  ◌↔◌, true, false, List, [], ◌∷◌, text_eq_iff, Ordering, ◌≡◌, refl, arith, ap₂, ap, All,
  Bool-cases, inl, inr,
}
use isitsql.Semver.Number.{is_numeric}
use isitsql.Semver.Version.{Ident, num, str}
use isitsql.Semver.Compare.{compare_identifiers, same_ident, compare_pre_from, compare_pre}
use isitsql.Semver.Order.Texts.{
  flip, compare-flip, compare-eq, compare_trans, compare_text-flip, compare_text-eq,
  compare_text_trans,
}

-- A numeric identifier is a number.
abbrev pub IsExact : Ident → Type 0
IsExact (num n) = Unit
IsExact (str s) = is_numeric s ≡ false

pub compare_identifiers-flip :
    (i j : Ident) → compare_identifiers j i ≡ flip (compare_identifiers i j)
unfolding compare_identifiers
compare_identifiers-flip (num a) (num b) = compare-flip a b
compare_identifiers-flip (num a) (str t) = ground arith
compare_identifiers-flip (str s) (num b) = ground arith
compare_identifiers-flip (str s) (str t) = ground (arith, compare_text-flip s t)

pub compare_identifiers-eq :
    (i j : Ident) → IsExact i → IsExact j → compare_identifiers i j ≡ Ordering.eq → i ≡ j
unfolding compare_identifiers
compare_identifiers-eq (num a) (num b) p q h = ap num (compare-eq a b h)
compare_identifiers-eq (num a) (str t) p q h = ground arith
compare_identifiers-eq (str s) (num b) p q h = ground arith
compare_identifiers-eq (str s) (str t) p q h = ground (arith, compare_text-eq s t)

pub compare_identifiers_trans :
    (i j k : Ident)
    → IsExact i
    → IsExact j
    → IsExact k
    → compare_identifiers i j ≡ Ordering.lt
    → compare_identifiers j k ≡ Ordering.lt
    → compare_identifiers i k ≡ Ordering.lt
unfolding compare_identifiers
compare_identifiers_trans (num a) (num b) (num c) p q r h k = compare_trans a b c h k
compare_identifiers_trans (str s) (str t) (str u) p q r h k =
    ground (arith, compare_text_trans s t u)
compare_identifiers_trans i j k p q r h l = ground arith

pub same_ident_iff : (i j : Ident) → (same_ident i j ≡ true) ↔ (i ≡ j)
unfolding same_ident
same_ident_iff (num a) (num b) = ground arith
same_ident_iff (str s) (str t) = ground (arith, text_eq_iff s t)
same_ident_iff (num a) (str t) = ground arith
same_ident_iff (str s) (num b) = ground arith

pub same_ident_comm : (i j : Ident) → same_ident j i ≡ same_ident i j
same_ident_comm i j = ground (arith, same_ident_iff i j, same_ident_iff j i)

pub same_ident_refl : (i : Ident) → same_ident i i ≡ true
same_ident_refl i = (same_ident_iff i i).1 refl

compare_pre_from-flip :
    (is js : List Ident) → compare_pre_from js is ≡ flip (compare_pre_from is js)
unfolding compare_pre_from
compare_pre_from-flip [] [] = refl
compare_pre_from-flip [] (j ∷ js) = refl
compare_pre_from-flip (i ∷ is) [] = refl
compare_pre_from-flip (i ∷ is) (j ∷ js) =
    rw (same_ident_comm i j) (elim (Bool-cases (same_ident i j)) [
      | inl e ↦ rw e (compare_pre_from-flip is js)
      | inr e ↦ rw e (compare_identifiers-flip i j)
    ])

pub compare_pre_from_refl : (is : List Ident) → compare_pre_from is is ≡ Ordering.eq
unfolding compare_pre_from
compare_pre_from_refl [] = refl
compare_pre_from_refl (i ∷ is) = rw (same_ident_refl i) (compare_pre_from_refl is)

compare_pre_from-eq :
    (is js : List Ident)
    → All IsExact is
    → All IsExact js
    → compare_pre_from is js ≡ Ordering.eq
    → is ≡ js
unfolding compare_pre_from
compare_pre_from-eq [] [] p q h = refl
compare_pre_from-eq [] (j ∷ js) p q h = cc
compare_pre_from-eq (i ∷ is) [] p q h = cc
compare_pre_from-eq (i ∷ is) (j ∷ js) (p, ps) (q, qs) h = elim (Bool-cases (same_ident i j)) [
  | inl e ↦ ap₂ ◌∷◌ ((same_ident_iff i j).0 e) (compare_pre_from-eq is js ps qs (rw e at h))
  | inr e ↦ absurd (cc (e, (same_ident_iff i j).1 (compare_identifiers-eq i j p q (rw e at h))))
]

-- The first place where two lists differ decides, in either order.
compare_pre_from_trans :
    (is js ks : List Ident)
    → All IsExact is
    → All IsExact js
    → All IsExact ks
    → compare_pre_from is js ≡ Ordering.lt
    → compare_pre_from js ks ≡ Ordering.lt
    → compare_pre_from is ks ≡ Ordering.lt
unfolding compare_pre_from
compare_pre_from_trans [] [] ks p q r h k = cc
compare_pre_from_trans [] (j ∷ js) [] p q r h k = cc
compare_pre_from_trans [] (j ∷ js) (k ∷ ks) p q r h l = refl
compare_pre_from_trans (i ∷ is) [] ks p q r h k = cc
compare_pre_from_trans (i ∷ is) (j ∷ js) [] p q r h k = cc
compare_pre_from_trans (i ∷ is) (j ∷ js) (k ∷ ks) (p, ps) (q, qs) (r, rs) h l = ground (
  arith,
  same_ident_iff i j,
  same_ident_iff j k,
  same_ident_iff i k,
  compare_identifiers_trans i j k p q r,
  compare_identifiers-flip i j,
  compare_pre_from_trans is js ks ps qs rs,
)

pub compare_pre-flip : (is js : List Ident) → compare_pre js is ≡ flip (compare_pre is js)
unfolding compare_pre
compare_pre-flip [] [] = refl
compare_pre-flip [] (j ∷ js) = refl
compare_pre-flip (i ∷ is) [] = refl
compare_pre-flip (i ∷ is) (j ∷ js) = compare_pre_from-flip (i ∷ is) (j ∷ js)

pub compare_pre_refl : (is : List Ident) → compare_pre is is ≡ Ordering.eq
unfolding compare_pre
compare_pre_refl [] = refl
compare_pre_refl (i ∷ is) = compare_pre_from_refl (i ∷ is)

pub compare_pre-eq :
    (is js : List Ident)
    → All IsExact is
    → All IsExact js
    → compare_pre is js ≡ Ordering.eq
    → is ≡ js
unfolding compare_pre
compare_pre-eq [] [] p q h = refl
compare_pre-eq [] (j ∷ js) p q h = cc
compare_pre-eq (i ∷ is) [] p q h = cc
compare_pre-eq (i ∷ is) (j ∷ js) p q h = compare_pre_from-eq (i ∷ is) (j ∷ js) p q h

pub compare_pre_trans :
    (is js ks : List Ident)
    → All IsExact is
    → All IsExact js
    → All IsExact ks
    → compare_pre is js ≡ Ordering.lt
    → compare_pre js ks ≡ Ordering.lt
    → compare_pre is ks ≡ Ordering.lt
unfolding compare_pre
compare_pre_trans (i ∷ is) (j ∷ js) (k ∷ ks) p q r h l =
    compare_pre_from_trans (i ∷ is) (j ∷ js) (k ∷ ks) p q r h l
compare_pre_trans [] [] ks p q r h l = cc
compare_pre_trans [] (j ∷ js) ks p q r h l = cc
compare_pre_trans (i ∷ is) [] [] p q r h l = refl
compare_pre_trans (i ∷ is) [] (k ∷ ks) p q r h l = cc
compare_pre_trans (i ∷ is) (j ∷ js) [] p q r h l = refl
