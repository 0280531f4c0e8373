-- ===== src/Renderer/Prepared.antt =====
-- `PreparedLog` of src/application/log_renderer.hpp and .cpp: a compiled log with its caches, which
-- `render` turns into the text of an instant.
use log_generator.Prelude.Int.{ℤ, pos, negsuc, ◌+ℤ◌, ◌*ℤ◌}
use log_generator.Prelude.Words.{u64_mod}
use log_generator.Prelude.{
  ℕ, ◌*◌, ◌/◌, ◌%◌, ◌^◌, Bool, true, false, not, ◌&&◌, ◌||◌, List, [], ◌∷◌, ◌++◌, ◌==◌, Bytes,
  length, replicate, if◌then◌else◌,
}
use log_generator.Privacy.{synthetic_value, synthetic_profile_count}
use log_generator.Renderer.Candidates.{literal, timestamp, privacy, source_ip, destination_ip}
use log_generator.Renderer.Clock.{Tm, whole_seconds, timestamp_text}
use log_generator.Renderer.Segments.{RenderSegment, CompiledLog}
use Prim.Native.Nat.{bit_xor}

-- `==` of integers, and of truth values.
abbrev pub equal_ℤ : ℤ → ℤ → Bool
equal_ℤ (pos a) (pos b) = a == b
equal_ℤ (pos a) (negsuc b) = false
equal_ℤ (negsuc a) (pos b) = false
equal_ℤ (negsuc a) (negsuc b) = a == b

abbrev pub equal_Bool : Bool → Bool → Bool
equal_Bool true b = b
equal_Bool false b = not b

-- One place of each of the arrays `privacy_cache_`, `privacy_cache_seconds_`,
-- `privacy_cache_calendar_time_` and `privacy_cache_valid_`.
pub record ProfileEntry : Type 0 where
  pub text : Bytes
  pub second : ℤ
  pub calendar_time : Bool
  pub valid : Bool

pub record PreparedLog : Type 0 where
  pub compiled : CompiledLog
  pub source_address : Bytes
  pub destination_address : Bytes
  pub cached : Bytes
  pub timestamp_cache : List Bytes
  pub privacy_cache : ℕ → ProfileEntry
  pub cached_second : ℤ
  pub cached_calendar_time : Bool
  pub offset : ℤ
  pub random_state : ℕ

-- What `append_non_timestamp_segment` appends.
unfoldable pub non_timestamp_text : PreparedLog → RenderSegment → ℕ → Bytes
unfolding synthetic_value
non_timestamp_text p segment profile_index = elim segment.kind [
  | literal ↦ segment.text
  | privacy ↦ synthetic_value segment.privacy_kind profile_index
  | source_ip ↦ p.source_address
  | destination_ip ↦ p.destination_address
  | timestamp ↦ []
]

unfoldable pub non_timestamp_texts : PreparedLog → ℕ → List RenderSegment → Bytes
unfolding non_timestamp_text
non_timestamp_texts p profile_index [] = []
non_timestamp_texts p profile_index (segment ∷ segments) =
    non_timestamp_text p segment profile_index ++ non_timestamp_texts p profile_index segments

unfoldable pub initialize_cache : PreparedLog → PreparedLog
unfolding non_timestamp_texts
initialize_cache p = record p {
  cached_second = negsuc 0;
  cached_calendar_time = false;
  privacy_cache =
      λ _. record { text = []; second = negsuc 0; calendar_time = false; valid = false };
  timestamp_cache = replicate (length p.compiled.segments) [];
  cached =
      if not p.compiled.has_timestamp && not p.compiled.has_privacy
      then p.cached ++ non_timestamp_texts p 0 p.compiled.segments
      else p.cached;
}

abbrev pub word : ℕ → ℕ
word n = n % u64_mod

-- `value` is what `sequence.fetch_add` returned.
unfoldable pub initial_random_state : ℕ → ℕ
initial_random_state value =
    let a = word (bit_xor value (value / 2 ^ 30) * 0xBF58476D1CE4E5B9) in
    let b = word (bit_xor a (a / 2 ^ 27) * 0x94D049BB133111EB) in
    let c = bit_xor b (b / 2 ^ 31) in if c == 0 then 0xA0761D6478BD642F else c

-- The members before the body of the constructor.
abbrev pub members : CompiledLog → Bytes → Bytes → ℤ → ℕ → PreparedLog
members compiled source_address destination_address offset random_state = record {
  compiled = compiled;
  source_address = source_address;
  destination_address = destination_address;
  cached = [];
  timestamp_cache = [];
  privacy_cache = λ _. record { text = []; second = pos 0; calendar_time = false; valid = false };
  cached_second = negsuc 0;
  cached_calendar_time = false;
  offset = offset;
  random_state = random_state;
}

-- The constructor from a compiled log.
unfoldable pub bind : ℕ → CompiledLog → Bytes → Bytes → ℤ → PreparedLog
unfolding initialize_cache initial_random_state
bind sequence compiled source_address destination_address offset =
    initialize_cache
      (members compiled source_address destination_address offset (initial_random_state sequence))

unfoldable pub next_random_state : ℕ → ℕ
next_random_state state =
    let a = bit_xor state (state / 2 ^ 12) in
    let b = bit_xor a (word (a * 2 ^ 25)) in bit_xor b (b / 2 ^ 27)

unfoldable pub next_profile_index : ℕ → ℕ
next_profile_index state = word (state * 0x2545F4914F6CDD1D) % synthetic_profile_count

module _ (localtime : ℤ → Tm) where
  -- The loop that renews the texts of the timestamps.
  unfoldable pub renew : ℤ → Bool → List RenderSegment → List Bytes → List Bytes
  unfolding timestamp_text
  renew adjusted calendar_time (segment ∷ segments) (text ∷ texts) =
      (elim segment.kind [
        | timestamp ↦ timestamp_text localtime segment.token adjusted calendar_time
        | _ ↦ text
      ])
      ∷ renew adjusted calendar_time segments texts
  renew adjusted calendar_time segments texts = texts

  -- The loop that appends the segments.
  unfoldable pub render_segments :
      PreparedLog → ℤ → Bool → ℕ → List RenderSegment → List Bytes → Bytes
  unfolding timestamp_text non_timestamp_text
  render_segments p adjusted calendar_time profile_index (segment ∷ segments) (text ∷ texts) =
      (elim segment.kind [
        | timestamp ↦
            if p.compiled.has_privacy
            then text
            else timestamp_text localtime segment.token adjusted calendar_time
        | _ ↦ non_timestamp_text p segment profile_index
      ])
      ++ render_segments p adjusted calendar_time profile_index segments texts
  render_segments p adjusted calendar_time profile_index segments texts = []

  -- From the second early return on: the timestamps are renewed, the text is put together, and kept.
  unfoldable pub render_anew : PreparedLog → ℤ → ℤ → Bool → ℕ → Bytes × PreparedLog
  unfolding renew render_segments
  render_anew p adjusted second calendar_time profile_index =
      let stale =
        not (equal_ℤ second p.cached_second)
        || not (equal_Bool calendar_time p.cached_calendar_time) in
      let renewed =
        if p.compiled.has_privacy && (p.compiled.has_timestamp && stale)
        then renew adjusted calendar_time p.compiled.segments p.timestamp_cache
        else p.timestamp_cache in
      let output =
        render_segments p adjusted calendar_time profile_index p.compiled.segments renewed in
      let entry : ProfileEntry = record {
        text = output;
        second = second;
        calendar_time = calendar_time;
        valid = true;
      } in
      (
        output,
        record p {
          timestamp_cache = renewed;
          cached = if p.compiled.cache_privacy_profiles then p.cached else output;
          privacy_cache =
              if p.compiled.cache_privacy_profiles
              then (λ i. if i == profile_index then entry else p.privacy_cache i)
              else p.privacy_cache;
          cached_second = second;
          cached_calendar_time = calendar_time;
        },
      )

  -- `privacy_cache_` has the text of this second.
  unfoldable pub is_kept : PreparedLog → ℤ → Bool → ℕ → Bool
  is_kept p second calendar_time profile_index =
      let entry = p.privacy_cache profile_index in
      p.compiled.cache_privacy_profiles
      && (entry.valid
          && (not p.compiled.has_timestamp
              || equal_ℤ entry.second second && equal_Bool entry.calendar_time calendar_time))

  -- The profile of a rendering, and the state behind its choice.
  unfoldable pub profile_of : PreparedLog → ℕ
  unfolding next_random_state next_profile_index
  profile_of p =
      if p.compiled.has_privacy then next_profile_index (next_random_state p.random_state) else 0

  unfoldable pub drawn : PreparedLog → PreparedLog
  unfolding next_random_state
  drawn p = record p {
    random_state =
        if p.compiled.has_privacy then next_random_state p.random_state else p.random_state;
  }

  -- `render` at the adjusted time.
  unfoldable pub render_adjusted : PreparedLog → ℤ → Bool → Bytes × PreparedLog
  unfolding render_anew is_kept profile_of drawn
  render_adjusted p adjusted calendar_time =
      let second = whole_seconds adjusted in
      let profile_index = profile_of p in
      if not p.compiled.has_timestamp && not p.compiled.has_privacy
      then (p.cached, p)
      else if not p.compiled.has_privacy
          && (equal_ℤ second p.cached_second && equal_Bool calendar_time p.cached_calendar_time)
      then (p.cached, p)
      else if is_kept p second calendar_time profile_index
      then ((p.privacy_cache profile_index).text, drawn p)
      else render_anew (drawn p) adjusted second calendar_time profile_index

  abbrev pub adjusted_time : PreparedLog → ℤ → ℤ
  adjusted_time p now = now +ℤ p.offset *ℤ pos 1000000000

  unfoldable pub render : PreparedLog → ℤ → Bool → Bytes × PreparedLog
  unfolding render_adjusted
  render p now calendar_time = render_adjusted p (adjusted_time p now) calendar_time
