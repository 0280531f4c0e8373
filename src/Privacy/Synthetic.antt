-- ===== src/Privacy/Synthetic.antt =====
-- src/application/privacy_anonymizer.cpp: the values that stand for private ones.
use log_generator.Prelude.Decimal.{to_string, pad4}
use log_generator.Prelude.{ℕ, ◌+◌, ◌-◌, ◌%◌, ◌/◌, [], ◌∷◌, ◌++◌, ltb, if◌then◌else◌, Bytes, codes}
use log_generator.Privacy.Kinds.{
  PrivacyTokenKind, no_token, person, store, store_code, user_id, employee_id, department,
  organization, email, phone, address, ip_address, mac_address, host, identifier, secret, file_path,
}

-- Two digits of a hexadecimal number.
abbrev pub hex_digit : ℕ → ℕ
hex_digit n = if ltb n 10 then b'0' + n else b'A' + (n - 10)

abbrev pub hex : ℕ → Bytes
hex n = hex_digit (n / 16 % 16) ∷ hex_digit (n % 16) ∷ []

abbrev pub synthetic_profile_count : ℕ
synthetic_profile_count = 50

-- One field of the profile that `make_profiles` writes for a number.
unfoldable pub profile_value : PrivacyTokenKind → ℕ → Bytes
unfolding to_string
profile_value person number = codes "홍길동 " ++ to_string number
profile_value store number = to_string number ++ codes "호점"
profile_value store_code number = to_string number
profile_value user_id number = codes "user" ++ to_string number
profile_value employee_id number = codes "EMP" ++ pad4 number
profile_value department number = codes "테스트부서 " ++ to_string number
profile_value organization number = codes "Your-Company"
profile_value email number = codes "user" ++ (to_string number ++ codes "@example.invalid")
profile_value phone number = codes "010-0000-" ++ pad4 number
profile_value address number = codes "서울특별시 테스트로 " ++ to_string number
profile_value ip_address number = codes "198.51.100." ++ to_string number
profile_value mac_address number = codes "02:00:00:00:00:" ++ hex number
profile_value host number = codes "host-" ++ to_string number
profile_value identifier number = codes "id-" ++ pad4 number
profile_value secret number = codes "secret-" ++ pad4 number
profile_value file_path number =
    codes "C:/ProgramData/Your-Company/SecurityData/event-" ++ (to_string number ++ codes ".dat")
profile_value no_token number = []

unfoldable pub synthetic_value : PrivacyTokenKind → ℕ → Bytes
synthetic_value kind profile_index =
    profile_value kind (profile_index % synthetic_profile_count + 1)
