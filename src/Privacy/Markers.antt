-- ===== src/Privacy/Markers.antt =====
-- Markers, names of fields, synthetic values and control bytes.
use mathlib.Core.Path.{ap₂}
use log_generator.Prelude.{
  ℕ, ◌+◌, ◌≤◌, ◌≡◌, ◌⊎◌, refl, ap, [], ◌∷◌, Bytes, equal, All, All-append, to_lower, arith,
}
use log_generator.Privacy.{
  PrivacyTokenKind, no_token, person, store, store_code, user_id, employee_id, department,
  organization, email, phone, address, ip_address, mac_address, host, identifier, secret, file_path,
  marker, marker_kind, normalize_byte, normalize_field, classify_field, escape_control,
  escape_unsupported_controls,
}

-- The kind of a marker is the kind that it marks.
pub marker_kind-marker : (kind : PrivacyTokenKind) → marker_kind (marker kind) ≡ kind
unfolding marker marker_kind equal
marker_kind-marker no_token = refl
marker_kind-marker person = refl
marker_kind-marker store = refl
marker_kind-marker store_code = refl
marker_kind-marker user_id = refl
marker_kind-marker employee_id = refl
marker_kind-marker department = refl
marker_kind-marker organization = refl
marker_kind-marker email = refl
marker_kind-marker phone = refl
marker_kind-marker address = refl
marker_kind-marker ip_address = refl
marker_kind-marker mac_address = refl
marker_kind-marker host = refl
marker_kind-marker identifier = refl
marker_kind-marker secret = refl
marker_kind-marker file_path = refl

normalize_byte_idem : (c : ℕ) → normalize_byte (normalize_byte c) ≡ normalize_byte c
unfolding to_lower
normalize_byte_idem c = ground arith

normalize_field_idem : (f : Bytes) → normalize_field (normalize_field f) ≡ normalize_field f
unfolding normalize_field
normalize_field_idem [] = refl
normalize_field_idem (c ∷ cs) = ap₂ ◌∷◌ (normalize_byte_idem c) (normalize_field_idem cs)

abbrev pub IsSeparator : ℕ → Type 0
IsSeparator c = (c ≡ b'-') ⊎ (c ≡ b'.') ⊎ (c ≡ b'_')

-- The same byte, an upper-case letter and its lower-case one, or two separators.
abbrev pub IsLike : ℕ → ℕ → Type 0
IsLike c d =
    (c ≡ d)
    ⊎ ((b'A' ≤ c) × (c ≤ b'Z') × (d ≡ c + 32))
    ⊎ ((b'A' ≤ d) × (d ≤ b'Z') × (c ≡ d + 32))
    ⊎ (IsSeparator c × IsSeparator d)

abbrev pub AreLike : Bytes → Bytes → Type 0
AreLike [] [] = Unit
AreLike [] (d ∷ ds) = ⊥
AreLike (c ∷ cs) [] = ⊥
AreLike (c ∷ cs) (d ∷ ds) = IsLike c d × AreLike cs ds

normalize_byte-IsLike : (c d : ℕ) → IsLike c d → normalize_byte c ≡ normalize_byte d
unfolding to_lower
normalize_byte-IsLike c d h = ground arith

normalize_field-AreLike : (f g : Bytes) → AreLike f g → normalize_field f ≡ normalize_field g
unfolding normalize_field
normalize_field-AreLike [] [] h = refl
normalize_field-AreLike [] (d ∷ ds) h = absurd h
normalize_field-AreLike (c ∷ cs) [] h = absurd h
normalize_field-AreLike (c ∷ cs) (d ∷ ds) h =
    ap₂ ◌∷◌ (normalize_byte-IsLike c d h.0) (normalize_field-AreLike cs ds h.1)

-- If two names of fields are the same but for the case of their letters and for which of `-`, `.` and
-- `_` stands at a place, the two fields are of the same kind; and the normal form of a name is of
-- that kind.
pub classify_field-AreLike :
    (f g : Bytes)
    → AreLike f g
    → (classify_field f ≡ classify_field g)
      × (classify_field (normalize_field f) ≡ classify_field g)
unfolding classify_field
classify_field-AreLike f g h =
    (rw (normalize_field-AreLike f g h), rw (normalize_field_idem f, normalize_field-AreLike f g h))

-- Bytes that a template may hold.
abbrev pub IsSupported : ℕ → Type 0
IsSupported c = (32 ≤ c) ⊎ (c ≡ b'\t') ⊎ (c ≡ b'\n') ⊎ (c ≡ b'\r')

escape_control-All : (c : ℕ) → All IsSupported (escape_control c)
escape_control-All c = ground arith

controls_gone : (cs : Bytes) → All IsSupported (escape_unsupported_controls cs)
unfolding escape_unsupported_controls
controls_gone [] = tt
controls_gone (c ∷ cs) =
    All-append IsSupported (escape_control c) (escape_unsupported_controls cs)
      (escape_control-All c) (controls_gone cs)

escape_control-same : (c : ℕ) → IsSupported c → escape_control c ≡ c ∷ []
escape_control-same c h = ground arith

supported_stay : (cs : Bytes) → All IsSupported cs → escape_unsupported_controls cs ≡ cs
unfolding escape_unsupported_controls
supported_stay [] h = refl
supported_stay (c ∷ cs) h = rw (escape_control-same c h.0) (ap (◌∷◌ c) (supported_stay cs h.1))

-- The escaped text holds no unsupported control byte, and escaping it again changes nothing.
pub escape_unsupported_controls-IsSupported :
    (cs : Bytes)
    → All IsSupported (escape_unsupported_controls cs)
      × (escape_unsupported_controls (escape_unsupported_controls cs)
          ≡ escape_unsupported_controls cs)
escape_unsupported_controls-IsSupported cs =
    (controls_gone cs, supported_stay (escape_unsupported_controls cs) (controls_gone cs))
