-- ===== src/Auth/Operations/ByLists.antt =====
-- `groupBy` over plain lists: it meets the laws, and the examples run on it.
use nestjs_saas.Prelude.{ℕ, suc, String, List, [], ◌∷◌, ◌≡◌, refl, arith, ◌==◌, length, keep}
use nestjs_saas.Prisma.Keys.{Keyed}
use nestjs_saas.Js.Maps.{put, sum_at, same_entry, sum_at-put, put-Keyed}
use nestjs_saas.Auth.Operations.{Grouping}

module _ {R : Type 0} (text_of : R → String) where
  abbrev pub groups : List R → List (String × ℕ)
  groups [] = []
  groups (r ∷ rows) = put (text_of r) 0 suc (groups rows)

  pub groups-Keyed : (rows : List R) → Keyed same_entry (groups rows)
  groups-Keyed [] = tt
  groups-Keyed (r ∷ rows) = put-Keyed 0 suc (text_of r) (groups rows) (groups-Keyed rows)

  pub groups_count :
      (rows : List R) (text : String)
      → sum_at (λ n. n) text (groups rows) ≡ length (keep (λ r. text_of r == text) rows)
  groups_count [] text = refl
  groups_count (r ∷ rows) text = ground (
    arith,
    groups_count rows text,
    sum_at-put 0 suc (λ n. n) 1 refl (λ n. omega arith) text (text_of r) (groups rows),
  )

abbrev pub in_groups : Grouping
in_groups = record {
  group_by = λ test text_of rows. groups text_of (keep test rows);
  group_by_keys = λ test text_of rows. groups-Keyed text_of (keep test rows);
  group_by_count = λ test text_of rows text. groups_count text_of (keep test rows) text;
}
