-- ===== src/Settings/Serialize.antt =====
-- The text form of the settings (`serialize_server_settings` and `deserialize_server_settings` of
-- src/settings.c).
use xprc_server_plugin_c.Common.Int.{ℤ, pos}
use xprc_server_plugin_c.Common.Run.{Run, ok, ◌>>=◌}
use xprc_server_plugin_c.Common.{
  ℕ, ◌+◌, ◌<◌, ◌≡◌, ◌≢◌, refl, ◌∙◌, ap, true, false, not, Option, none, some, List, [], ◌∷◌, ◌++◌,
  arith, ltb, ◌==◌, if◌then◌else◌, length, all, drop, get_or, take-append, drop-append,
  append_assoc, str_eq, str_eq_iff, Bool-cases, inl, inr, length_bytes-append,
}
use xprc_server_plugin_c.Text.Search.{strpos-append}
use xprc_server_plugin_c.Text.Numbers.{parse_integer-decimal}
use xprc_server_plugin_c.Text.{strpos, parse_int, decimal, fits}
use xprc_server_plugin_c.Settings.{
  Settings, SettingsField, BoolField, IntField, boolean, integer, network_interface_string,
  get_bool, set_bool, get_int, set_int, key_value_separator, serialization_null, serialize_value,
  serialize_setting, serialize_fields, serialize_server_settings, get_settings_field,
  deserialize_setting, deserialize_known, deserialize_line, deserialize_lines, store_int,
  deserialize_server_settings, settings_fields, Error, no_error, string_or_null,
}

-- Settings that the text form can hold: the numbers are C integers, and the interface is not spelled
-- like the mark for NULL.
pub record IsSavable (s : Settings) : Type 0 where
  pub console : fits 32 s.log_level_console ≡ true
  pub xplane : fits 32 s.log_level_xplane ≡ true
  pub interface : s.network_interface ≢ some serialization_null

module _ (key value : List ℕ) where
  abbrev line : List ℕ
  line = key ++ key_value_separator ∷ value

  drop-key : drop (length key + 1) line ≡ value
  drop-key =
      let cut : length key + 1 ≡ length (key ++ key_value_separator ∷ []) =
        omega (arith, length_bytes-append key (key_value_separator ∷ [])) in
      let regroup : line ≡ (key ++ key_value_separator ∷ []) ++ value = simp append_assoc in
      rw (cut, regroup) (drop-append (key ++ key_value_separator ∷ []) value)

  -- A line is taken apart at its separator.
  deserialize_line-known :
      (s : Settings) (known : Option SettingsField)
      → 0 < length key
      → all (λ c. not (c == key_value_separator)) key ≡ true
      → get_settings_field key ≡ known
      → deserialize_line s line (strpos line (key_value_separator ∷ []) (pos 0))
        ≡ (deserialize_known s known value >>= λ r. ok (some r))
  unfolding deserialize_line
  deserialize_line-known s known p plain found =
      let keyed : ltb (length key) 1 ≡ false = ground arith in
      rw (
        strpos-append key_value_separator value key plain,
        keyed,
        take-append key (key_value_separator ∷ value),
        drop-key,
        found,
      )

pub parse_int-decimal : (v : ℤ) → fits 32 v ≡ true → parse_int (decimal v) ≡ ok (some v)
unfolding parse_int
parse_int-decimal v h = (parse_integer-decimal 32 (decimal v) v).1 (refl, h)

-- Each kind of value is read back.
read_bool :
    (s t : Settings) (f : BoolField)
    → deserialize_setting t (boolean f) (serialize_value (boolean f) s)
      ≡ ok (set_bool f (get_bool f s) t, no_error)
read_bool s t f = elim (Bool-cases (get_bool f s)) [
  | inl yes_set ↦ unfold serialize_value deserialize_setting str_eq in rw yes_set
  | inr not_set ↦ unfold serialize_value deserialize_setting str_eq in rw not_set
]

read_int :
    (s t : Settings) (f : IntField)
    → fits 32 (get_int f s) ≡ true
    → deserialize_setting t (integer f) (serialize_value (integer f) s)
      ≡ ok (set_int f (get_int f s) t, no_error)
unfolding serialize_value deserialize_setting store_int
read_int s t f h = rw (parse_int-decimal (get_int f s) h)

read_interface :
    (o : Option (List ℕ))
    → o ≢ some serialization_null
    → (if str_eq (string_or_null o) serialization_null then none else some (string_or_null o)) ≡ o
read_interface none h = unfold str_eq in refl
read_interface (some v) h = elim (Bool-cases (str_eq v serialization_null)) [
  | inl same ↦ absurd (h (ap some ((str_eq_iff v serialization_null).0 same)))
  | inr other ↦ rw other
]

with_interface : Settings → Option (List ℕ) → Run (Settings × Error)
with_interface t o = ok (record t { network_interface = o }, no_error)

read_interface_setting :
    (s t : Settings)
    → s.network_interface ≢ some serialization_null
    → deserialize_setting t network_interface_string (serialize_value network_interface_string s)
      ≡ ok (record t { network_interface = s.network_interface }, no_error)
unfolding deserialize_setting serialize_value with_interface
read_interface_setting s t h = ap (with_interface t) (read_interface s.network_interface h)

-- The fields of the table, and the lines from one of them on.
abbrev pub field_at : ℕ → SettingsField
field_at i =
    get_or settings_fields i
      (record { key = []; ref = network_interface_string; standardized = true })

abbrev lines_from : Settings → ℕ → List (List ℕ)
lines_from s i = serialize_fields s (drop i settings_fields)

-- A field that is known and whose value is read back leaves the rest of the loop.
field_step :
    (s t t' : Settings) (i : ℕ) (lines : List (List ℕ))
    → ltb 0 (length (field_at i).key) ≡ true
    → all (λ c. not (c == key_value_separator)) (field_at i).key ≡ true
    → get_settings_field (field_at i).key ≡ some (field_at i)
    → deserialize_setting t (field_at i).ref (serialize_value (field_at i).ref s)
      ≡ ok (t', no_error)
    → deserialize_lines t no_error (serialize_setting s (field_at i) ∷ lines)
      ≡ deserialize_lines t' no_error lines
unfolding deserialize_lines serialize_setting deserialize_known
field_step s t t' i lines keyed plain found read =
    let value = serialize_value (field_at i).ref s in
    let key = (field_at i).key in
    let positive : 0 < length key = ground (arith, keyed) in
    rw (deserialize_line-known key value t (some (field_at i)) positive plain found, read)

-- Reading the lines that serialization wrote gives the settings back except for the password and the
-- port, which stay as they were, with no error, where the log levels are C integers and the
-- interface is not spelled like the mark for NULL.
pub deserialize-serialize :
    (s t : Settings)
    → IsSavable s
    → deserialize_server_settings t (serialize_server_settings s)
      ≡ ok (record s { password = t.password; network_port = t.network_port }, no_error)
unfolding deserialize_server_settings serialize_server_settings serialize_fields get_settings_field
deserialize-serialize s t v =
    let t1 = set_bool BoolField.auto_startup s.auto_startup t in
    let t2 = set_bool BoolField.auto_regen_password s.auto_regen_password t1 in
    let t3 = set_int IntField.log_level_console s.log_level_console t2 in
    let t4 = set_int IntField.log_level_xplane s.log_level_xplane t3 in
    let t5 : Settings = record t4 { network_interface = s.network_interface } in
    let t6 = set_bool BoolField.network_enable_ipv6 s.network_enable_ipv6 t5 in
    field_step s t t1 0 (lines_from s 1) refl refl refl (read_bool s t BoolField.auto_startup)
    ∙ field_step s t1 t2 1 (lines_from s 2) refl refl refl
        (read_bool s t1 BoolField.auto_regen_password)
    ∙ field_step s t2 t3 2 (lines_from s 3) refl refl refl
        (read_int s t2 IntField.log_level_console v.console)
    ∙ field_step s t3 t4 3 (lines_from s 4) refl refl refl
        (read_int s t3 IntField.log_level_xplane v.xplane)
    ∙ field_step s t4 t5 4 (lines_from s 5) refl refl refl (read_interface_setting s t4 v.interface)
    ∙ field_step s t5 t6 6 [] refl refl refl (read_bool s t5 BoolField.network_enable_ipv6)
