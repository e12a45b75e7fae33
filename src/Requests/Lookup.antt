-- ===== src/Requests/Lookup.antt =====
-- The queries of src/requests.c on the options of a request.
use xprc_server_plugin_c.Common.{
  ℕ, ◌≡◌, refl, true, Option, none, List, [], ◌∷◌, arith, if◌then◌else◌, is_some, str_eq,
  str_eq_iff, Bool-cases, inl, inr,
}
use xprc_server_plugin_c.Requests.{
  CommandOption, Request, has_option, request_has_option, one_of, only_options,
  request_has_only_options, option_value, request_get_option,
}

has_option-value :
    (options : List CommandOption) (name : List ℕ)
    → is_some (option_value options name none) ≡ has_option options name
unfolding has_option option_value
has_option-value [] name = refl
has_option-value (o ∷ options) name = ground (arith, has_option-value options name)

option_value-default :
    (options : List CommandOption) (name : List ℕ) (default_value : Option (List ℕ))
    → option_value options name default_value
      ≡ (if has_option options name then option_value options name none else default_value)
unfolding has_option option_value
option_value-default [] name default_value = refl
option_value-default (o ∷ options) name default_value =
    ground (arith, option_value-default options name default_value)

-- An option has a value of its own exactly if the request has it, and otherwise reads as the
-- default.
pub request_get_option-has :
    (request : Request) (name : List ℕ) (default_value : Option (List ℕ))
    → (is_some (request_get_option request name none) ≡ request_has_option request name)
      × (request_get_option request name default_value ≡ (
          if request_has_option request name
          then request_get_option request name none
          else default_value))
request_get_option-has request name default_value =
    unfold request_get_option request_has_option in
    (has_option-value request.options name, option_value-default request.options name default_value)

only_options-has :
    (options : List CommandOption) (names : List (List ℕ)) (name : List ℕ)
    → only_options options names ≡ true
    → has_option options name ≡ true
    → one_of name names ≡ true
unfolding only_options has_option
only_options-has [] names name h k = cc
only_options-has (o ∷ options) names name h k = elim (Bool-cases (str_eq o.name name)) [
  | inl same ↦ let e = (str_eq_iff o.name name).0 same in rw (← e) (ground arith)
  | inr other ↦ ground (arith, only_options-has options names name)
]

-- Where a request is found to have only known options, each option that it has is among them.
pub request_has_only_options-has :
    (request : Request) (names : List (List ℕ)) (name : List ℕ)
    → request_has_only_options request names ≡ true
    → request_has_option request name ≡ true
    → one_of name names ≡ true
request_has_only_options-has request names name h k =
    only_options-has request.options names name (unfold request_has_only_options in h)
      (unfold request_has_option in k)
