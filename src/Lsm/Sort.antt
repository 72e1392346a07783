-- ===== src/Lsm/Sort.antt =====
-- Sorting does not depend on the order before.
use swe_daily_challenge.Base.{
  ◌≡◌, refl, sym, ap, ◌∙◌, true, false, List, [], ◌∷◌, inl, inr, Bool-cases,
}
use swe_daily_challenge.Lsm.Strings.{Str, str_lt}
use swe_daily_challenge.Lsm.{insert_desc}
use swe_daily_challenge.Lsm.Order.{Compared, compared, lt_of_lt_ge}

insert_nil : (p : Str) → insert_desc p [] ≡ p ∷ []
unfolding insert_desc
insert_nil p = refl

insert_below :
    (p q : Str) (qs : List Str) → str_lt p q ≡ true → insert_desc p (q ∷ qs) ≡ q ∷ insert_desc p qs
unfolding insert_desc
insert_below p q qs h = simp (insert_desc, h) refl

insert_above :
    (p q : Str) (qs : List Str) → str_lt p q ≡ false → insert_desc p (q ∷ qs) ≡ p ∷ q ∷ qs
unfolding insert_desc
insert_above p q qs h = simp (insert_desc, h) refl

-- One of two new paths goes above the other, whichever comes first.
insert_two :
    (p q : Str) (qs : List Str)
    → insert_desc p qs ≡ p ∷ qs
    → insert_desc q qs ≡ q ∷ qs
    → insert_desc p (insert_desc q qs) ≡ insert_desc q (insert_desc p qs)
insert_two p q qs on_p on_q =
    ap (insert_desc p) on_q ∙ by_order (compared p q) ∙ sym (ap (insert_desc q) on_p)
  where
    by_order : Compared p q → insert_desc p (q ∷ qs) ≡ insert_desc q (p ∷ qs)
    by_order (inl (lt, ge)) =
        insert_below p q qs lt ∙ ap (◌∷◌ q) on_p ∙ sym (insert_above q p qs ge)
    by_order (inr (inl (lt, ge))) =
        insert_above p q qs ge ∙ sym (insert_below q p qs lt ∙ ap (◌∷◌ p) on_q)
    by_order (inr (inr e)) =
        ap (λ r. insert_desc p (r ∷ qs)) (sym e) ∙ ap (λ r. insert_desc r (p ∷ qs)) e

pub insert_desc_comm :
    (p q : Str) (qs : List Str)
    → insert_desc p (insert_desc q qs) ≡ insert_desc q (insert_desc p qs)
insert_desc_comm p q [] = insert_two p q [] (insert_nil p) (insert_nil q)
insert_desc_comm p q (r ∷ rs) = elim (Bool-cases (str_lt p r)) [
  | inl p_lt ↦ elim (Bool-cases (str_lt q r)) [
    | inl q_lt ↦
        ap (insert_desc p) (insert_below q r rs q_lt)
        ∙ insert_below p r (insert_desc q rs) p_lt
        ∙ ap (◌∷◌ r) (insert_desc_comm p q rs)
        ∙ sym (
            ap (insert_desc q) (insert_below p r rs p_lt)
            ∙ insert_below q r (insert_desc p rs) q_lt)
    | inr q_ge ↦
        ap (insert_desc p) (insert_above q r rs q_ge)
        ∙ insert_below p q (r ∷ rs) (lt_of_lt_ge p q r p_lt q_ge)
        ∙ ap (◌∷◌ q) (insert_below p r rs p_lt)
        ∙ sym (
            ap (insert_desc q) (insert_below p r rs p_lt)
            ∙ insert_above q r (insert_desc p rs) q_ge)
  ]
  | inr p_ge ↦ elim (Bool-cases (str_lt q r)) [
    | inl q_lt ↦
        ap (insert_desc p) (insert_below q r rs q_lt)
        ∙ insert_above p r (insert_desc q rs) p_ge
        ∙ sym (
            ap (insert_desc q) (insert_above p r rs p_ge)
            ∙ insert_below q p (r ∷ rs) (lt_of_lt_ge q p r q_lt p_ge)
            ∙ ap (◌∷◌ p) (insert_below q r rs q_lt))
    | inr q_ge ↦ insert_two p q (r ∷ rs) (insert_above p r rs p_ge) (insert_above q r rs q_ge)
  ]
]
