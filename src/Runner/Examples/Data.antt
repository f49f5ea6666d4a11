-- ===== src/Runner/Examples/Data.antt =====
-- Sorting, merging and deduplicating small values, and templates in a text.
use Prim.Native.String.{String}
use mathlib.Core.List.{Perm, Sublist}
use ktsu.Prelude.{◌≡◌, refl, List, [], ◌∷◌, contains}
use ktsu.Prelude.Answer.{got}
use ktsu.Value.{
  Value, Values, Fields, str, int, obj, arr, end, field, nil, cons, items, values, fields,
}
use ktsu.Runner.Template.{
  blanks, shortest, last_blank, template_body, template_at, interpolate_from, interpolate_templates,
  redact_from, scrub_string,
}
use ktsu.Runner.Transform.{deep_merge}
use ktsu.Runner.Transform.Ops.{
  extract_field, compare_values, comes_before, insert_back, insert_each, slice_stable, apply_sort,
  dedupe_key, apply_deduplicate,
}
use ktsu.Runner.Transform.Sorted.{InOrder, is_wrong, apply_sort_lem}
use ktsu.Runner.Transform.Merged.{
  AllDistinct, keys, IsDistinct, AreAllDistinct, IsMerge, deep_merge_lem, apply_deduplicate_lem,
}
use ktsu.Runner.Examples.{library, expressions}

abbrev story : String → Value
story title = obj (field "title" (str title) end)

abbrev stories : Values
stories = cons (story "b") (cons (story "a") (cons (story "b") nil))

apply_sort_lem_example :
    (ys : List Value) × (apply_sort library (arr stories) "title" "desc" ≡ got (arr (values ys)))
    × Perm ys (items stories)
    × InOrder (is_wrong library "title" "desc") ys
apply_sort_lem_example = apply_sort_lem library stories "title" "desc"

sort_stories :
    apply_sort library (arr stories) "title" "asc"
    ≡ got (arr (values (story "a" ∷ story "b" ∷ story "b" ∷ [])))
unfolding expressions apply_sort slice_stable insert_each insert_back comes_before compare_values
    extract_field items values
sort_stories = refl

apply_deduplicate_lem_example :
    (ys : List Value) × (apply_deduplicate library (arr stories) "title" ≡ arr (values ys))
    × Sublist ys (items stories)
    × AllDistinct (keys (dedupe_key library "title") ys)
    × ((k : String)
        → contains (keys (dedupe_key library "title") ys) k
          ≡ contains (keys (dedupe_key library "title") (items stories)) k)
apply_deduplicate_lem_example = apply_deduplicate_lem library stories "title"

abbrev left : Fields
left = field "tags" (arr (cons (str "go") nil)) (field "n" (int 1) end)

abbrev right : Fields
right = field "tags" (arr (cons (str "ai") nil)) (field "m" (int 2) end)

right-AreAllDistinct : IsDistinct (obj right)
unfolding IsDistinct AreAllDistinct
right-AreAllDistinct = (refl, tt, (refl, tt, tt))

deep_merge_lem_example : IsMerge (obj left) (obj right) (deep_merge (obj left) (obj right))
deep_merge_lem_example = deep_merge_lem (obj left) (obj right) right-AreAllDistinct

merge_tags :
    deep_merge (obj left) (obj right)
    ≡ obj (
        field "tags"
          (arr (cons (str "go") (cons (str "ai") nil)))
          (field "n" (int 1) (field "m" (int 2) end)))
unfolding deep_merge
merge_tags = refl

interpolate_url :
    interpolate_templates library "http://x/{{ id }}?q={{ q }}"
      (("id", str "7") ∷ ("q", str "go") ∷ [])
    ≡ got "http://x/7?q=go"
unfolding expressions interpolate_templates interpolate_from template_at template_body last_blank
    shortest blanks fields
interpolate_url = refl

scrub_token : scrub_string "denied for s3cret" ("s3cret" ∷ []) ≡ "denied for [REDACTED]"
unfolding expressions scrub_string redact_from
scrub_token = refl
