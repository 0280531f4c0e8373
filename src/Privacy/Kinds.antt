-- ===== src/Privacy/Kinds.antt =====
-- src/application/privacy_anonymizer.cpp: the kinds of private values, their markers and search terms.
use log_generator.Prelude.{ℕ, ◌-◌, ◌^◌, List, [], ◌∷◌, ◌==◌, if◌then◌else◌, Bytes, codes, equal}

-- `no_token` is `None`.
pub data PrivacyTokenKind : Type 0 where
  no_token person store store_code user_id employee_id department organization email phone address
        ip_address mac_address host identifier secret file_path :
      PrivacyTokenKind

-- The array `privacy_token_kinds`.
abbrev pub privacy_token_kinds : List PrivacyTokenKind
privacy_token_kinds =
    person ∷ store ∷ store_code ∷ user_id ∷ employee_id ∷ department ∷ organization ∷ email ∷ phone
    ∷ address ∷ ip_address ∷ mac_address ∷ host ∷ identifier ∷ secret ∷ file_path ∷ []

-- The value of the enumeration.
abbrev pub enum_value : PrivacyTokenKind → ℕ
enum_value no_token = 0
enum_value person = 1
enum_value store = 2
enum_value store_code = 3
enum_value user_id = 4
enum_value employee_id = 5
enum_value department = 6
enum_value organization = 7
enum_value email = 8
enum_value phone = 9
enum_value address = 10
enum_value ip_address = 11
enum_value mac_address = 12
enum_value host = 13
enum_value identifier = 14
enum_value secret = 15
enum_value file_path = 16

unfoldable pub privacy_token_bit : PrivacyTokenKind → ℕ
privacy_token_bit kind = if enum_value kind == 0 then 0 else 2 ^ (enum_value kind - 1)

unfoldable pub marker : PrivacyTokenKind → Bytes
marker person = codes "{{PERSON}}"
marker store = codes "{{STORE}}"
marker store_code = codes "{{STORE_CODE}}"
marker user_id = codes "{{USER_ID}}"
marker employee_id = codes "{{EMPLOYEE_ID}}"
marker department = codes "{{DEPARTMENT}}"
marker organization = codes "{{ORGANIZATION}}"
marker email = codes "{{EMAIL}}"
marker phone = codes "{{PHONE}}"
marker address = codes "{{ADDRESS}}"
marker ip_address = codes "{{IP_ADDRESS}}"
marker mac_address = codes "{{MAC_ADDRESS}}"
marker host = codes "{{HOST}}"
marker identifier = codes "{{IDENTIFIER}}"
marker secret = codes "{{SECRET}}"
marker file_path = codes "{{FILE_PATH}}"
marker no_token = []

first_match : Bytes → List PrivacyTokenKind → PrivacyTokenKind
first_match value [] = no_token
first_match value (kind ∷ kinds) =
    let rest = first_match value kinds in if equal value (marker kind) then kind else rest

unfoldable pub marker_kind : Bytes → PrivacyTokenKind
unfolding first_match marker
marker_kind value = first_match value privacy_token_kinds

unfoldable pub search_terms : PrivacyTokenKind → Bytes
search_terms person = codes "person name user_name user_nm emp_nm 성명 이름 사람"
search_terms store = codes "store branch shop site str_nm 점포 지점 매장 호점"
search_terms store_code = codes "store_code branch_code site_num str_cd bizpl_cd 점포코드 매장코드 지점코드"
search_terms user_id = codes "user account login id 계정 사용자 아이디"
search_terms employee_id = codes "employee emp employee_id emp_no 사번 임직원"
search_terms department = codes "department dept team group 부서 조직 팀 파트"
search_terms organization = codes "organization company corporate org 회사 법인"
search_terms email = codes "email e-mail mail 이메일 메일"
search_terms phone = codes "phone mobile telephone tel 전화 휴대폰 연락처"
search_terms address = codes "address postal zip 주소 우편번호"
search_terms ip_address = codes "ip address network 아이피 네트워크"
search_terms mac_address = codes "mac address hardware 맥주소 하드웨어"
search_terms host = codes "host hostname device terminal server 호스트 장비 단말 서버"
search_terms identifier = codes "identifier uuid guid session 개인식별 식별자 세션"
search_terms secret = codes "secret password token key credential 비밀번호 비밀 인증"
search_terms file_path = codes "file path filename directory 파일 경로 폴더"
search_terms no_token = []
