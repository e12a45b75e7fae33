-- ===== src/Command/Features.antt =====
-- Feature flags of a command configuration (src/command.c) as a map from names to valid states.
use xprc_server_plugin_c.Common.{
  ℕ, suc, zero, ◌<◌, ◌≡◌, ◌≢◌, refl, Bool, true, false, ◌&&◌, ◌||◌, not, Option, none, some, List,
  arith, ◌==◌, if◌then◌else◌, is_some, subst, str_eq, Bool-cases, Option-cases, inl, inr, ◌↔◌,
}
use xprc_server_plugin_c.HashMap.Laws.{Puts, IsValid, create_hashmap-IsValid, hashmap_put-Puts}
use xprc_server_plugin_c.HashMap.Keys.{hashmap_find_first_complete}
use xprc_server_plugin_c.HashMap.{
  Hashmap, create_hashmap, hashmap_get, hashmap_put, hashmap_find_first,
}
use xprc_server_plugin_c.Command.{
  CommandConfig, create_command_config, get_command_feature_state, set_command_feature_flag,
  add_command_feature_flag, has_mandatory_command_feature_request, is_valid_feature_state,
  is_command_feature_actually_enabled, is_command_feature_actually_disabled,
  is_command_feature_requested_mandatory, is_command_feature_requested_optionally,
  is_command_feature_requested_enabled, is_command_feature_requested_disabled,
  parameter_has_mandatory_feature_request, state_none, state_or_none,
}
use xprc_server_plugin_c.Settings.{Error, no_error}

-- A configuration has a positive version and a proper table, and holds only valid states.
pub record IsConfig (c : CommandConfig) : Type 0 where
  pub versioned : 0 < c.version
  pub table : IsValid c.features
  pub states :
      (name : List ℕ) (state : ℕ)
      → hashmap_get c.features name ≡ some state
      → is_valid_feature_state state ≡ true

-- A new configuration is a proper one without flags; only version 0 is refused.
pub create_command_config-IsConfig :
    (version : ℕ)
    → ((create_command_config version ≡ none) ↔ (version ≡ 0))
      × ((c : CommandConfig)
          → create_command_config version ≡ some c
          → IsConfig c × ((name : List ℕ) → get_command_feature_state c name ≡ state_none))
unfolding create_command_config get_command_feature_state
create_command_config-IsConfig zero = ((λ _. refl, λ _. refl), λ c h. cc)
create_command_config-IsConfig (suc v) =
    let blank = create_hashmap-IsValid {V = ℕ} in
    (
      (λ h. cc, λ h. ground arith),
      λ c h.
          let fresh : CommandConfig = record { version = suc v; features = create_hashmap } in
          let same : fresh ≡ c = cc in
          subst
            (λ c.
              IsConfig c
              × ((name : List ℕ) → state_or_none (hashmap_get c.features name) ≡ state_none))
            same
            (
              record {
                versioned = omega arith;
                table = blank.0;
                states = λ name state found. ground (arith, blank.1 name);
              },
              λ name. rw (blank.1 name),
            ),
    )

-- Every valid state is either enabled or disabled, is not requested both ways, and is requested as
-- mandatory or as optional exactly if it is requested either way.
pub feature_state-partition :
    (state : ℕ)
    → is_valid_feature_state state ≡ true
    → (is_command_feature_actually_disabled state ≡ not (is_command_feature_actually_enabled state))
      × ((is_command_feature_requested_enabled state && is_command_feature_requested_disabled state)
          ≡ false)
      × ((is_command_feature_requested_mandatory state
            || is_command_feature_requested_optionally state)
          ≡ (is_command_feature_requested_enabled state
              || is_command_feature_requested_disabled state))
unfolding is_valid_feature_state is_command_feature_actually_disabled
    is_command_feature_actually_enabled is_command_feature_requested_enabled
    is_command_feature_requested_disabled is_command_feature_requested_mandatory
    is_command_feature_requested_optionally
feature_state-partition state h = ground arith

-- A name has a state other than `COMMAND_FEATURE_STATE_NONE` exactly if it is in the table.
is_some-state_or_none :
    (o : Option ℕ)
    → ((state : ℕ) → o ≡ some state → is_valid_feature_state state ≡ true)
    → is_some o ≡ not (state_or_none o == state_none)
unfolding is_valid_feature_state
is_some-state_or_none none valid = refl
is_some-state_or_none (some state) valid = ground (arith, valid state refl)

is_some-state :
    (c : CommandConfig) (name : List ℕ)
    → IsConfig c
    → is_some (hashmap_get c.features name) ≡ not (get_command_feature_state c name == state_none)
unfolding get_command_feature_state
is_some-state c name valid = is_some-state_or_none (hashmap_get c.features name) (valid.states name)

-- A table written with a valid state gives a proper configuration.
written-IsConfig :
    (allocated : Bool) (c : CommandConfig) (name : List ℕ) (state : ℕ)
    (r : Bool × Option ℕ × Hashmap ℕ)
    → IsConfig c
    → is_valid_feature_state state ≡ true
    → Puts allocated c.features name state r
    → IsConfig (record c { features = r.2 })
written-IsConfig allocated c name state r valid ok puts = record {
  versioned = valid.versioned;
  table = puts.keeps;
  states = λ q v found. grind (arith, puts.reads q, valid.states q v);
}

-- Setting a flag: it succeeds exactly for a valid state where the name was there or there is memory;
-- the previous state is given, and only the name's own state changes.
pub record Sets (allocated : Bool) (c : CommandConfig) (name : List ℕ) (state : ℕ)
    (r : Error × Option ℕ × CommandConfig) : Type 0 where
  pub succeeds : (r.0 ≡ no_error) ↔ (
      (is_valid_feature_state state
        && (allocated || not (get_command_feature_state c name == state_none)))
      ≡ true)
  pub previous : r.0 ≡ no_error → r.1 ≡ some (get_command_feature_state c name)
  pub reads :
      r.0 ≡ no_error
      → (q : List ℕ)
      → get_command_feature_state r.2 q
        ≡ (if str_eq name q then state else get_command_feature_state c q)
  pub fails :
      r.0 ≢ no_error
      → (q : List ℕ) → get_command_feature_state r.2 q ≡ get_command_feature_state c q
  pub keeps : IsConfig r.2

-- On a proper configuration, setting a flag succeeds exactly for a valid state where the name was
-- there or there is memory, gives the previous state, changes the name's own state only, and keeps
-- the configuration proper.
pub set_command_feature_flag-Sets :
    (allocated : Bool) (c : CommandConfig) (name : List ℕ) (state : ℕ)
    → IsConfig c
    → Sets allocated c name state (set_command_feature_flag allocated c name state)
unfolding set_command_feature_flag get_command_feature_state
set_command_feature_flag-Sets allocated c name state valid =
    let puts = hashmap_put-Puts allocated c.features name state valid.table in
    let there = is_some-state c name valid in
    record {
      succeeds = ground (arith, puts.succeeds, there);
      previous = ground (arith, puts.old);
      reads = λ done q. ground (arith, puts.reads q);
      fails = λ failed q. ground (arith, puts.reads q);
      keeps = elim (Bool-cases (is_valid_feature_state state)) [
        | inl ok ↦
            let written = written-IsConfig allocated c name state _ valid ok puts in
            elim (Bool-cases (hashmap_put allocated c.features name state).0) [
              | inl done ↦ rw (ok, done) written
              | inr failed ↦ rw (ok, failed) written
            ]
        | inr bad ↦ rw bad valid
      ];
    }

-- Adding a flag: a name that has a state keeps it and the call fails; otherwise it is as setting.
pub record Adds (allocated : Bool) (c : CommandConfig) (name : List ℕ) (state : ℕ)
    (r : Error × CommandConfig) : Type 0 where
  pub succeeds : (r.0 ≡ no_error) ↔ (
      (is_valid_feature_state state && allocated && get_command_feature_state c name == state_none)
      ≡ true)
  pub reads :
      (q : List ℕ)
      → get_command_feature_state r.1 q ≡ (
          if is_valid_feature_state state
            && allocated
            && get_command_feature_state c name == state_none
            && str_eq name q
          then state
          else get_command_feature_state c q)
  pub keeps : IsConfig r.1

-- On a proper configuration, adding a flag succeeds exactly for a valid state, with memory, under a
-- name that had none; otherwise every state stays as it was.
pub add_command_feature_flag-Adds :
    (allocated : Bool) (c : CommandConfig) (name : List ℕ) (state : ℕ)
    → IsConfig c
    → Adds allocated c name state (add_command_feature_flag allocated c name state)
unfolding add_command_feature_flag
add_command_feature_flag-Adds allocated c name state valid =
    let sets = set_command_feature_flag-Sets allocated c name state valid in
    record {
      succeeds = ground (arith, sets.succeeds);
      reads = λ q.
          let done : Type 0 = (set_command_feature_flag allocated c name state).0 ≡ no_error in
          let written = λ (d : done). sets.reads d q in
          let kept = λ (d : ¬ done). sets.fails d q in ground (arith, sets.succeeds, written, kept);
      keeps = elim (Bool-cases (is_valid_feature_state state)) [
        | inl ok ↦ elim (Bool-cases (get_command_feature_state c name == state_none)) [
          | inl fresh ↦ rw (ok, fresh) sets.keeps
          | inr there ↦ rw (ok, there) valid
        ]
        | inr bad ↦ rw bad valid
      ];
    }

-- On a proper configuration, a mandatory request is reported exactly if some name has a mandatory
-- state.
pub has_mandatory_command_feature_request-exact :
    (c : CommandConfig)
    → IsConfig c
    → (has_mandatory_command_feature_request c ≡ true
        → (name : List ℕ) × (is_command_feature_requested_mandatory
              (get_command_feature_state c name)
            ≡ true))
      × (has_mandatory_command_feature_request c ≡ false
          → (name : List ℕ)
          → is_command_feature_requested_mandatory (get_command_feature_state c name) ≡ false)
unfolding has_mandatory_command_feature_request get_command_feature_state
    parameter_has_mandatory_feature_request is_command_feature_requested_mandatory
has_mandatory_command_feature_request-exact c valid =
    let p = parameter_has_mandatory_feature_request in
    let (sound, complete) = hashmap_find_first_complete c.features p valid.table in
    (
      λ has. elim (Option-cases (hashmap_find_first c.features p)) [
        | inl nothing ↦ absurd (ground (arith, has, nothing))
        | inr (item, found) ↦
            let (mandatory, reads) = sound item found in (item.key, rw reads mandatory)
      ],
      λ none_has name. elim (Option-cases (hashmap_get c.features name)) [
        | inl missing ↦ rw missing
        | inr (state, found) ↦ rw found (complete (ground (arith, none_has)) name state found)
      ],
    )
