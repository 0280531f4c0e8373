-- ===== src/Privacy/Fields.antt =====
-- src/application/privacy_anonymizer.cpp: how the name of a field tells the kind of its values.
-- `words` splits the literals of an initializer list.
use log_generator.Prelude.{
  ℕ, Bool, false, not, ◌&&◌, ◌||◌, List, [], ◌∷◌, ◌==◌, if◌then◌else◌, Bytes, codes, words, equal,
  contains, starts_with, ends_with, to_lower,
}
use log_generator.Privacy.Kinds.{
  PrivacyTokenKind, no_token, person, store, store_code, user_id, employee_id, department,
  organization, email, phone, address, ip_address, mac_address, host, identifier, secret, file_path,
}

abbrev pub normalize_byte : ℕ → ℕ
normalize_byte c = if c == b'-' || c == b'.' then b'_' else to_lower c

unfoldable pub normalize_field : Bytes → Bytes
normalize_field [] = []
normalize_field (c ∷ cs) = normalize_byte c ∷ normalize_field cs

unfoldable pub contains_any : Bytes → List Bytes → Bool
contains_any value [] = false
contains_any value (c ∷ cs) = contains value c || contains_any value cs

unfoldable pub equals_any : Bytes → List Bytes → Bool
equals_any value [] = false
equals_any value (c ∷ cs) = equal value c || equals_any value cs

-- The tests of `classify_field`, on the normal form of the name.
classify : Bytes → PrivacyTokenKind
unfolding contains_any equals_any
classify field =
    if equals_any field (
      words
        "src srcip src_ip srp_ip srcaddr src_addr srcaddress src_address sourceip source_ip sourceaddress source_address clientip client_ip clientipaddr sip gateway dst dstip dst_ip dest_ip dstnip dstn_ip dstaddr dst_addr dstaddress dst_address destinationip destination_ip destinationaddress destination_address serverip server_ip dip")
    then no_token
    else if contains_any field
        (words "store_code branch_code shop_code site_num site_code site_cd str_cd bizpl_cd")
    then store_code
    else if contains_any field (words "store branch shop site_name site_nm str_nm bizpl")
    then store
    else if equal field (codes "name")
        || contains_any field (
            words
              "user_name user_nm emp_name emp_nm employee_name person_name customer_name customer_nm cust_name cust_nm member_name member_nm client_name manager_name manager_nm mgr_name mgr_nm operator_name admin_name requester_name approver_name owner_name suser_name duser_name first_name firstname last_name lastname full_name fullname given_name family_name srcnm src_nm dstnm dst_nm ldap_name sess_uname")
        || equal field (codes "ssun")
    then person
    else if contains_any field (words "email e_mail mail_addr mail_address")
    then email
    else if not (equal field (codes "ldap_tel"))
        && contains_any field
            (words "phone mobile cellphone cell_phone telephone tel_no telnum fax")
    then phone
    else if contains_any field (words "address postal postcode zip_code zipcode")
        || (contains field (codes "addr") && not (contains field (codes "ip")))
    then address
    else if equal field (codes "mac")
        || starts_with (codes "mac_") field
        || ends_with field (codes "_mac")
    then mac_address
    else if equal field (codes "ip")
        || ends_with field (codes "_ip")
        || starts_with (codes "ip_") field
        || contains_any field (words "clientip agentip web_ip access_ip remote_ip local_ip")
    then ip_address
    else if contains_any field
          (words "password passwd pwd secret token api_key access_key private_key credential hmac")
        || equal field (codes "payload")
        || equal field (codes "reassembled")
    then secret
    else if contains_any field (words "dept team division department groupname group_name")
        || equal field (codes "ldap_tel")
        || equal field (codes "ssdn")
    then department
    else if contains_any field (
          words
            "company corporate organization org_name org_nm com_name sess_dname sess_serverdname")
        || equals_any field (words "sssdn ssdbn")
    then organization
    else if equals_any field (words "suser duser srcid src_id ldap_sno ssui ssda ssli tda")
        || contains_any field (
            words
              "username user_id userid login_id loginid account suser_id duser_id chakra_user_id manager_id mgr_id decide_mgr_id sess_localid sess_userid sess_dbaccount")
    then user_id
    else if contains_any field (words "emp_id employee_id empno emp_no employee_no")
    then employee_id
    else if equals_any field (
          words
            "host server_nm eqp_nm sensor_nm instance_nm dstn_host_nm src_host_nm sess_domain sess_serveruname ssd sssun")
        || contains_any field (
            words
              "host_name hostname host_alias device_id deviceid terminal_id terminal_name term_name serial")
    then host
    else if equal field (codes "path")
        || contains_any field (
            words
              "file_path filepath filename file_name origin_filename install_location application_path directory folder safpath")
    then file_path
    else if contains_any field (
          words
            "resident rrn ssn passport card_no card_number customer_id customer_no cust_id cust_no member_id member_no birth birthday date_of_birth dob vehicle_no car_no license_no uuid guid session_id sessionid dbi_session dbi_statement dbi_transaction user_num client_num dept_num personal_id user_info user_key_id principalid identifier rcvid ec2_id dstid dst_id srcgrpid src_grp_id dstgrpid dst_grp_id sess_did sess_serverdid sess_uid sess_serveruid txn_stmguid txn_sessguid")
        || equals_any field (words "_uid uid sssd sssu ssuid ssdid")
    then identifier
    else no_token

unfoldable pub classify_field : Bytes → PrivacyTokenKind
unfolding classify normalize_field
classify_field field_name = classify (normalize_field field_name)
