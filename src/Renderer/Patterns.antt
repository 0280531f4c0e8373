-- ===== src/Renderer/Patterns.antt =====
-- The regular expressions of src/application/log_renderer.cpp, as their texts. What they match is
-- asked of `std::regex`.
use log_generator.Prelude.{ℕ, Bool, true, false, List, [], ◌∷◌, Option, Bytes, codes, String}
use log_generator.Renderer.Styles.{
  TimestampStyle, apache, compact, compact_date, compact_time, compact_with_t, compact_year_month,
  date_only, iso8601, month_day_year, syslog_with_year, syslog_without_year, time_only,
  year_first_minute, year_month,
}

pub record Regex : Type 0 where
  pub text : Bytes
  pub icase : Bool

-- A group of a match: its position and its length, where it took part.
abbrev pub Group : Type 0
Group = Option (ℕ × ℕ)

-- What `std::sregex_iterator` visits: the groups of each match, in order.
abbrev pub Matcher : Type 0
Matcher = Regex → Bytes → List (List Group)

pub record TimestampPattern : Type 0 where
  pub expression : Regex
  pub style : TimestampStyle
  pub priority : ℕ
  pub capture_group : ℕ

unfoldable pub source_field_pattern : Regex
source_field_pattern = record {
  text =
      codes
        "((?:^|[\\s,;|{])[\"']?(?:src|srcip|src_ip|src-ip|srp_ip|srcaddr|src_addr|srcaddress|src_address|sourceip|source_ip|sourceaddress|source_address|source-address|clientip|client_ip|clientipaddr|sip|gateway)[\"']?\\s*[:=]\\s*[\"']?)(\\d{1,3}(?:\\.\\d{1,3}){3})";
  icase = true;
}

unfoldable pub destination_field_pattern : Regex
destination_field_pattern = record {
  text =
      codes
        "((?:^|[\\s,;|{])[\"']?(?:dst|dstip|dst_ip|dest_ip|dstnip|dstn_ip|dstaddr|dst_addr|dstaddress|dst_address|destinationip|destination_ip|destinationaddress|destination_address|destination-address|serverip|server_ip|dip)[\"']?\\s*[:=]\\s*[\"']?)(\\d{1,3}(?:\\.\\d{1,3}){3})";
  icase = true;
}

unfoldable pub arrow_source_pattern : Regex
arrow_source_pattern = record {
  text = codes "(\\b)(\\d{1,3}(?:\\.\\d{1,3}){3})(?=:\\d{1,5}\\s*(?:-|=)>)";
  icase = false;
}

unfoldable pub arrow_destination_pattern : Regex
arrow_destination_pattern = record {
  text = codes "((?:-|=)>\\s*)(\\d{1,3}(?:\\.\\d{1,3}){3})";
  icase = false;
}

pattern_of : String → Bool → TimestampStyle → ℕ → ℕ → TimestampPattern
pattern_of text icase style priority group = record {
  expression = record { text = codes text; icase = icase };
  style = style;
  priority = priority;
  capture_group = group;
}

unfoldable pub timestamp_patterns : List TimestampPattern
unfolding pattern_of
timestamp_patterns =
    pattern_of
      "\\b(?:19|20)\\d{2}[-/](?:0[1-9]|1[0-2])[-/](?:0[1-9]|[12]\\d|3[01])[T ](?:[01]?\\d|2[0-3]):[0-5]\\d:[0-5]\\d(?:\\.\\d{1,9})?(?:Z|[+-]\\d{2}:?\\d{2})?"
      false iso8601 0 0
    ∷ pattern_of
        "(^|[^0-9])((?:19|20)\\d{2}(?:0[1-9]|1[0-2])(?:0[1-9]|[12]\\d|3[01])T\\d{6}(?:\\.\\d{1,9})?(?:Z|[+-]\\d{2}:?\\d{2})?)(?![0-9])"
        false compact_with_t 1 2
    ∷ pattern_of
        "\\b(?:[A-Z][a-z]{2}\\s+)?[A-Z][a-z]{2}\\s+\\d{1,2}\\s+\\d{4}\\s+\\d{2}:\\d{2}:\\d{2}(?:\\s+(?:GMT|UTC))?\\b"
        false month_day_year 2 0
    ∷ pattern_of
        "\\b(?:[A-Z][a-z]{2}\\s+)?[A-Z][a-z]{2}\\s+\\d{1,2}\\s+\\d{2}:\\d{2}:\\d{2}\\s+\\d{4}\\b"
        false syslog_with_year 3 0
    ∷ pattern_of "\\b\\d{1,2}/[A-Z][a-z]{2}/\\d{4}:\\d{2}:\\d{2}:\\d{2}\\s+[+-]\\d{4}\\b" false
        apache 4 0
    ∷ pattern_of "\\b(?:[A-Z][a-z]{2}\\s+)?[A-Z][a-z]{2}\\s+\\d{1,2}\\s+\\d{2}:\\d{2}:\\d{2}\\b"
        false syslog_without_year 5 0
    ∷ pattern_of
        "(^|[^0-9])((?:19|20)\\d{2}(?:0[1-9]|1[0-2])(?:0[1-9]|[12]\\d|3[01])\\d{6})(?![0-9])" false
        compact 6 2
    ∷ pattern_of
        "\\b(?:19|20)\\d{2}[-/](?:0[1-9]|1[0-2])[-/](?:0[1-9]|[12]\\d|3[01])[ T](?:[01]?\\d|2[0-3]):[0-5]\\d(?!:)"
        false year_first_minute 7 0
    ∷ pattern_of "(^|[^0-9])((?:19|20)\\d{2}(?:0[1-9]|1[0-2])(?:0[1-9]|[12]\\d|3[01]))(?![0-9])"
        false compact_date 8 2
    ∷ pattern_of "(^|[^0-9])((?:19|20)\\d{2}(?:0[1-9]|1[0-2]))(?=_)" false compact_year_month 9 2
    ∷ pattern_of "(\\b(?:time|[A-Za-z0-9_]*hms)[\"']?\\s*[:=]\\s*[\"']?)(\\d{6})(?!\\d)" true
        compact_time 10 2
    ∷ pattern_of "\\b(?:19|20)\\d{2}[-/](?:0[1-9]|1[0-2])[-/](?:0[1-9]|[12]\\d|3[01])\\b" false
        date_only 11 0
    ∷ pattern_of "\\b(?:19|20)\\d{2}[-/](?:0[1-9]|1[0-2])\\b" false year_month 12 0
    ∷ pattern_of
        "(\\btime[\"']?\\s*[:=]\\s*[\"']?)((?:[01]?\\d|2[0-3]):[0-5]\\d:[0-5]\\d(?:\\.\\d{1,9})?)"
        true time_only 13 2
    ∷ pattern_of "(?:^|`)((?:[01]\\d|2[0-3]):[0-5]\\d:[0-5]\\d(?:\\.\\d{1,9})?)(?=`)" false
        time_only 14 1
    ∷ []
