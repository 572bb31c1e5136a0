-- ===== src/Router/Laws.antt =====
-- `GetDirection` does not depend on the case of the letters.
use redis_sentinel_proxy.Base.{
  ℕ, true, [], ◌∷◌, map, Bytes, if◌then◌else◌, ◌≡◌, refl, sym, ap, arith, ◌∙◌,
}
use redis_sentinel_proxy.Resp.{upper_byte, is_ascii, to_upper}
use redis_sentinel_proxy.Router.{read, write, contains, read_only_commands, get_direction}

upper_byte_idem : (c : ℕ) → upper_byte (upper_byte c) ≡ upper_byte c
upper_byte_idem c = ground arith

-- Two names that differ in the case of ASCII letters only.
abbrev pub SameLetters : Bytes → Bytes → Type 0
SameLetters a b = map upper_byte a ≡ map upper_byte b

is_ascii-upper : (a : Bytes) → is_ascii (map upper_byte a) ≡ is_ascii a
is_ascii-upper [] = refl
is_ascii-upper (c ∷ a) = ground (arith, is_ascii-upper a)

map-upper_idem : (a : Bytes) → map upper_byte (map upper_byte a) ≡ map upper_byte a
map-upper_idem [] = refl
map-upper_idem (c ∷ a) = cc (upper_byte_idem c, map-upper_idem a)

module _ (unicode : Bytes → Bytes) where
  to_upper_ascii : (a : Bytes) → is_ascii a ≡ true → to_upper unicode a ≡ map upper_byte a
  unfolding to_upper
  to_upper_ascii a h = rw h

  -- Two ASCII spellings of a command that differ in case only are routed alike.
  pub get_direction-SameLetters :
      (a b : Bytes)
      → is_ascii a ≡ true
      → SameLetters a b
      → get_direction unicode a ≡ get_direction unicode b
  unfolding get_direction
  get_direction-SameLetters a b h same =
      let h' = sym (is_ascii-upper b) ∙ ap is_ascii (sym same) ∙ is_ascii-upper a ∙ h in
      ap (λ x. if contains x read_only_commands then read else write) {x = to_upper unicode a}
        {y = to_upper unicode b} (to_upper_ascii a h ∙ same ∙ sym (to_upper_ascii b h'))

  -- The session hands over the name in upper case: that is the direction of the name as sent.
  pub get_direction-to_upper :
      (a : Bytes)
      → is_ascii a ≡ true
      → get_direction unicode (to_upper unicode a) ≡ get_direction unicode a
  get_direction-to_upper a h =
      rw (to_upper_ascii a h)
        (get_direction-SameLetters (map upper_byte a) a (is_ascii-upper a ∙ h) (map-upper_idem a))
