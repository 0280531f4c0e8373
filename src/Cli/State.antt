-- ===== src/Cli/State.antt =====
-- src/presentation/cli_app.hpp: the options, their defaults, and the local variables with which
-- `parse_arguments` reads them.
use log_generator.Domain.{
  file, newline, parallel, one_event_per_datagram, EndpointConfig, TimeOffset, offset,
  GeneratorConfig,
}
use log_generator.Prelude.Int.{ℤ, pos}
use log_generator.Prelude.{ℕ, Bool, true, false, List, [], Option, none, Bytes, codes}

pub data CliCommand : Type 0 where
  help list run : CliCommand

-- `duration` is in seconds, `status_interval` in milliseconds.
pub record CliOptions : Type 0 where
  pub command : CliCommand
  pub config : GeneratorConfig
  pub catalog_file : Bytes
  pub sample_ids : List Bytes
  pub duration : ℕ
  pub status_interval : ℕ
  pub all_samples : Bool
  pub quiet : Bool

-- The local variables of `parse_arguments`.
pub record Parsing : Type 0 where
  pub options : CliOptions
  pub range_start : Option ℤ
  pub range_end : Option ℤ
  pub offset_minutes : ℤ

abbrev no_offset : TimeOffset
no_offset = record { negative = false; days = pos 0; hours = pos 0; minutes = pos 0 }

abbrev pub default_options : CliOptions
default_options = record {
  command = help;
  config = record {
    endpoint = record {
      protocol = file;
      host = codes "127.0.0.1";
      port = 514;
      tls_server_name = [];
      verify_certificate = true;
      framing = newline;
      udp_packetization = one_event_per_datagram;
      file_output_directory = [];
      file_max_total_bytes = 0;
      file_max_count = 0;
      file_max_duration = 0;
    };
    templates = [];
    source_ip = codes "10.0.0.10";
    destination_ip = codes "10.0.0.20";
    timestamp_generation = record {
      mode = offset;
      offset = no_offset;
      range = record { start = pos 0; end = pos 0 };
    };
    transmission_mode = parallel;
    target_eps = 0;
  };
  catalog_file = [];
  sample_ids = [];
  duration = 0;
  status_interval = 1000;
  all_samples = false;
  quiet = false;
}

abbrev pub start_parsing : CliCommand → Parsing
start_parsing command = record {
  options = record default_options { command = command };
  range_start = none;
  range_end = none;
  offset_minutes = pos 0;
}

abbrev pub with_options : Parsing → CliOptions → Parsing
with_options p options = record p { options = options }

abbrev pub with_config : Parsing → GeneratorConfig → Parsing
with_config p config = with_options p (record p.options { config = config })

abbrev pub with_endpoint : Parsing → EndpointConfig → Parsing
with_endpoint p endpoint = with_config p (record p.options.config { endpoint = endpoint })
