-- ===== src/Core/Matrix/Members.antt =====
-- What the expansion of a value keeps of the choices.
use tls_interop_framework.Prelude.{
  Bool, Bool-cases, List, Option, Option-cases, [], and_true, any, ap, arith, false, flat_map,
  if◌then◌else◌, inl, inr, is_empty, is_some, none, not, refl, some, sym, true, ◌&&◌, ◌∙◌, ◌∷◌, ◌≡◌,
}
use tls_interop_framework.Core.Catalog.{cipher_ids, dimension_keys}
use tls_interop_framework.Core.Matrix.{
  all_minus, caps_of, excluding, expand_all_subtraction, expand_cap_dim_all,
  expand_cap_dim_all_subtraction, expand_capability_dimension, expand_choices,
  expand_csv_dimension_tokens, expand_dimension, expand_dimension_all_forms, expand_listed,
  expand_without_all, matches_all, non_empty, union_capability_keys,
  union_cipher_suite_ids_for_wrappers, union_keys,
}
use tls_interop_framework.Core.Tokens.{TlsMode, split_csv_tokens, stripped}
use tls_interop_framework.Python.Dict.{Dict}
use tls_interop_framework.Python.Json.{Fields}
use tls_interop_framework.Python.Result.{Result, empty_after_exclusions, err, ok}
use tls_interop_framework.Python.Sorted.{sort_set}
use tls_interop_framework.Python.Sorted.Laws.{
  IsAscending, keep-IsAscending, mem-flat_map, mem-keep, mem-nil, mem-sort_set,
  sort_set-IsAscending,
}
use tls_interop_framework.Python.Text.{Text, has_char, lit, mem, strip, text_eq}
use mathlib.Core.Path.{fun_ext}

pub mem-excluding :
    (x : Text) (exclusions choices : List Text)
    → mem x (excluding exclusions choices) ≡ (mem x choices && not (mem x exclusions))
unfolding excluding
mem-excluding x exclusions choices = mem-keep x (λ y. not (mem y exclusions)) choices

non_empty-ok :
    (value : Text) (xs : List Text) {vals : List Text} → non_empty value xs ≡ ok vals → xs ≡ vals
unfolding non_empty
non_empty-ok value [] h = ground arith
non_empty-ok value (x ∷ xs) h = ground arith

non_empty-if :
    (value : Text) (xs : List Text)
    → non_empty value xs ≡ (if is_empty xs then err (empty_after_exclusions value) else ok xs)
unfolding non_empty
non_empty-if value [] = refl
non_empty-if value (x ∷ xs) = refl

-- Nothing is left of the parts once those among the choices are taken out.
mem_of_excluding-nil :
    (x : Text) (choices parts : List Text)
    → is_empty (excluding choices parts) ≡ true
    → mem x parts ≡ true
    → mem x choices ≡ true
mem_of_excluding-nil x choices parts h m =
    ground (arith, mem-excluding x choices parts, mem-nil x, nil_of (excluding choices parts))
  where
    nil_of : (ys : List Text) → is_empty ys ≡ true → ys ≡ []
    nil_of [] e = refl
    nil_of (y ∷ ys) e = cc

module _ (val : Text) (base vals : List Text) (x : Text) (found : mem x vals ≡ true) where
  expand_csv-mem : expand_csv_dimension_tokens val base ≡ ok vals → mem x base ≡ true
  unfolding expand_csv_dimension_tokens
  expand_csv-mem h = ground (arith, mem_of_excluding-nil x base (split_csv_tokens val))

  minus-mem :
      (listed : List Text) → non_empty val (excluding listed base) ≡ ok vals → mem x base ≡ true
  minus-mem listed h =
      ground (arith, non_empty-ok val (excluding listed base) h, mem-excluding x listed base)

  expand_choices-mem :
      has_char b':' val ≡ false → expand_choices val base ≡ ok vals → mem x base ≡ true
  unfolding expand_choices expand_dimension_all_forms expand_all_subtraction expand_listed
  expand_choices-mem plain h = elim (Bool-cases (matches_all val)) [
    | inl every ↦ ground arith
    | inr no_all ↦ elim (Option-cases (all_minus val)) [
      | inl nothing ↦ ground (arith, expand_csv-mem)
      | inr (listed, e) ↦ ground (arith, minus-mem (split_csv_tokens listed))
    ]
  ]

expand_dimension-eq :
    (value : Text) (choices : List Text)
    → is_empty (stripped choices) ≡ false
    → is_empty (strip value) ≡ false
    → expand_dimension value choices ≡ expand_choices (strip value) (stripped choices)
unfolding expand_dimension
expand_dimension-eq value choices hc hv = rw hc (rw hv)

-- Where there are choices and the value is neither blank nor asymmetric, an expansion that succeeds
-- returns choices only.
pub expand_dimension-mem :
    (value : Text) (choices vals : List Text) (x : Text)
    → is_empty (stripped choices) ≡ false
    → is_empty (strip value) ≡ false
    → has_char b':' (strip value) ≡ false
    → expand_dimension value choices ≡ ok vals
    → mem x vals ≡ true
    → mem x (stripped choices) ≡ true
expand_dimension-mem value choices vals x hc hv plain h m =
    expand_choices-mem (strip value) (stripped choices) vals x m plain
      (sym (expand_dimension-eq value choices hc hv) ∙ h)

-- The wrappers that offer a key in a dimension.
abbrev pub offered_by : Text → Text → Dict Fields → Option TlsMode → Text → Bool
offered_by x dimension caps_by_wrapper mode id =
    mem x (dimension_keys (caps_of caps_by_wrapper id) dimension mode)

dimension_keys-cipher :
    (raw : Fields) (dimension : Text) (mode : Option TlsMode)
    → text_eq dimension (lit "cipher_suite") ≡ true
    → cipher_ids raw mode ≡ dimension_keys raw dimension mode
unfolding dimension_keys
dimension_keys-cipher raw dimension mode e = rw e

union_capability_keys-eq :
    (dimension : Text) (ids : List Text) (caps_by_wrapper : Dict Fields) (mode : Option TlsMode)
    → union_capability_keys dimension ids caps_by_wrapper mode
      ≡ sort_set (flat_map (λ id. dimension_keys (caps_of caps_by_wrapper id) dimension mode) ids)
unfolding union_capability_keys union_cipher_suite_ids_for_wrappers
union_capability_keys-eq dimension ids caps_by_wrapper mode =
    elim (Bool-cases (text_eq dimension (lit "cipher_suite") && is_some mode)) [
      | inl e ↦ rw e (
          ap (λ (f : Text → List Text). sort_set (flat_map f ids))
            (fun_ext (λ id.
              dimension_keys-cipher (caps_of caps_by_wrapper id) dimension mode
                (and_true _ _ e).0)))
      | inr n ↦ rw n
    ]

-- The union over the wrappers holds exactly what some wrapper offers.
pub mem-union_capability_keys :
    (x dimension : Text) (ids : List Text) (caps_by_wrapper : Dict Fields) (mode : Option TlsMode)
    → mem x (union_capability_keys dimension ids caps_by_wrapper mode)
      ≡ any (offered_by x dimension caps_by_wrapper mode) ids
mem-union_capability_keys x dimension ids caps_by_wrapper mode =
    ap (mem x) (union_capability_keys-eq dimension ids caps_by_wrapper mode)
    ∙ mem-sort_set x _
    ∙ mem-flat_map x _ ids

pub union_capability_keys-IsAscending :
    (dimension : Text) (ids : List Text) (caps_by_wrapper : Dict Fields) (mode : Option TlsMode)
    → IsAscending (union_capability_keys dimension ids caps_by_wrapper mode)
union_capability_keys-IsAscending dimension ids caps_by_wrapper mode =
    rw union_capability_keys-eq (sort_set-IsAscending _)

module _ (value dimension : Text) (ids : List Text) (caps_by_wrapper : Dict Fields)
    (catalog_choices : List Text) (mode : Option TlsMode) where
  -- The mode counts for cipher suites only.
  abbrev pub axis_mode : Option TlsMode
  axis_mode = if text_eq dimension (lit "cipher_suite") then mode else none

  abbrev pub pool : List Text
  pool = union_capability_keys dimension ids caps_by_wrapper axis_mode

  abbrev pub expanded : Result (List Text)
  expanded = expand_capability_dimension value dimension ids caps_by_wrapper catalog_choices mode

  -- ALL, where some wrapper offers anything in the dimension: the axis is strictly ascending, and
  -- holds exactly the keys that some wrapper offers, in the asked mode for cipher suites.
  pub expand_capability_dimension_all :
      (x : Text)
      → matches_all (strip value) ≡ true
      → is_empty pool ≡ false
      → (expanded ≡ ok pool)
        × IsAscending pool
        × (mem x pool ≡ any (offered_by x dimension caps_by_wrapper axis_mode) ids)
  unfolding expand_capability_dimension expand_cap_dim_all union_keys
  expand_capability_dimension_all x every some_key = (
    rw every (rw some_key),
    union_capability_keys-IsAscending dimension ids caps_by_wrapper axis_mode,
    mem-union_capability_keys x dimension ids caps_by_wrapper axis_mode,
  )

  -- ALL with exclusions, where some wrapper offers anything in the dimension: the result is strictly
  -- ascending and holds exactly the keys that some wrapper offers and that are not listed. The
  -- expansion fails exactly where no such key is left.
  pub expand_capability_dimension_minus :
      (listed x : Text)
      → matches_all (strip value) ≡ false
      → all_minus (strip value) ≡ some listed
      → is_empty pool ≡ false
      → let left = excluding (split_csv_tokens listed) pool in
        (expanded ≡ (if is_empty left then err (empty_after_exclusions (strip value)) else ok left))
        × IsAscending left
        × (mem x left ≡ (
            any (offered_by x dimension caps_by_wrapper axis_mode) ids
            && not (mem x (split_csv_tokens listed))))
  unfolding expand_capability_dimension expand_without_all expand_cap_dim_all_subtraction union_keys
  expand_capability_dimension_minus listed x no_all e some_key = (
    rw no_all (
        rw (e, expand_without_all, expand_cap_dim_all_subtraction)
          (rw some_key (non_empty-if (strip value) _))),
    unfold excluding in
        keep-IsAscending _ pool
          (union_capability_keys-IsAscending dimension ids caps_by_wrapper axis_mode),
    mem-excluding x (split_csv_tokens listed) pool
        ∙ ap (λ b. b && not (mem x (split_csv_tokens listed)))
            (mem-union_capability_keys x dimension ids caps_by_wrapper axis_mode),
  )
