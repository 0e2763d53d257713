-- ===== src/Catalog/StaticProvider.antt =====
-- src/catalog/static_block_catalog_provider.cpp. `double_of` stands for the literals 1.0 and 1000.0.
use gr4_control_plane.Prelude.{ℕ, String, Bool, true, false, none, List, [], ◌∷◌}
use gr4_control_plane.Prelude.Int.{pos}
use gr4_control_plane.Domain.Catalog.{
  BlockDescriptor, BlockPortDescriptor, BlockParameterDescriptor, BlockParameterDefault,
  default_null, default_bool, default_int, default_double, default_string, fixed,
}

-- The constructors of `BlockPortDescriptor` and `BlockParameterDescriptor`.
unfoldable pub port : String → String → BlockPortDescriptor
port name type = record {
  name = name;
  type = type;
  cardinality_kind = fixed;
  current_port_count = none;
  render_port_count = none;
  min_port_count = none;
  max_port_count = none;
  size_parameter = none;
  handle_name_template = none;
}

module _ {Double : Type 0} (double_of : ℕ → Double) where
  unfoldable pub parameter :
      String
      → String
      → Bool
      → BlockParameterDefault Double
      → String
      → BlockParameterDescriptor Double
  parameter name type required default summary = record {
    name = name;
    type = type;
    required = required;
    default_value = default;
    summary = summary;
    runtime_mutability = none;
    value_kind = none;
    enum_choices = none;
    enum_type = none;
    enum_labels = [];
    enum_source = none;
    ui_hint = none;
    allow_custom_value = none;
  }

  abbrev pub wfm_rcv : BlockDescriptor Double
  wfm_rcv = record {
    id = "blocks.analog.wfm_rcv";
    canonical_type = none;
    name = "WFM Receive";
    category = "Analog";
    summary = "Demodulates a wideband FM complex input stream";
    inputs = port "in" "complex" ∷ [];
    outputs = port "out" "float" ∷ [];
    parameters =
        parameter "quad_rate" "float" true default_null "Quadrature input sample rate"
        ∷ parameter "audio_decimation" "int" false (default_int (pos 10)) "Audio decimation factor"
        ∷ [];
  }

  abbrev pub fft_vcc : BlockDescriptor Double
  fft_vcc = record {
    id = "blocks.fft.fft_vcc";
    canonical_type = none;
    name = "FFT";
    category = "FFT";
    summary = "Computes a complex FFT over vector input frames";
    inputs = port "in" "complex_vector" ∷ [];
    outputs = port "out" "complex_vector" ∷ [];
    parameters =
        parameter "fft_size" "int" true default_null "Transform size"
        ∷ parameter "forward" "bool" false (default_bool true) "Use forward transform when true"
        ∷ [];
  }

  abbrev pub fir_filter_ccf : BlockDescriptor Double
  fir_filter_ccf = record {
    id = "blocks.filters.fir_filter_ccf";
    canonical_type = none;
    name = "FIR Filter";
    category = "Filters";
    summary = "Applies float taps to a complex input stream";
    inputs = port "in" "complex" ∷ [];
    outputs = port "out" "complex" ∷ [];
    parameters =
        parameter "decimation" "int" false (default_int (pos 1)) "Optional decimation factor"
        ∷ parameter "taps" "float_vector" true default_null "Filter taps"
        ∷ [];
  }

  abbrev pub add_ff : BlockDescriptor Double
  add_ff = record {
    id = "blocks.math.add_ff";
    canonical_type = none;
    name = "Add";
    category = "Math";
    summary = "Adds two float streams";
    inputs = port "in0" "float" ∷ port "in1" "float" ∷ [];
    outputs = port "out" "float" ∷ [];
    parameters =
        parameter "scale" "float" false (default_double (double_of 1)) "Optional output scaling"
        ∷ [];
  }

  abbrev pub null_sink : BlockDescriptor Double
  null_sink = record {
    id = "blocks.sinks.null_sink";
    canonical_type = none;
    name = "Null Sink";
    category = "Sinks";
    summary = "Consumes input samples and discards them";
    inputs = port "in" "any" ∷ [];
    outputs = [];
    parameters = parameter "type" "string" true default_null "Accepted input sample type" ∷ [];
  }

  abbrev pub signal_source_f : BlockDescriptor Double
  signal_source_f = record {
    id = "blocks.sources.signal_source_f";
    canonical_type = none;
    name = "Signal Source";
    category = "Sources";
    summary = "Generates a float waveform source";
    inputs = [];
    outputs = port "out" "float" ∷ [];
    parameters =
        parameter "sample_rate" "float" true default_null "Output sample rate"
        ∷ parameter "waveform" "string" false (default_string "sine") "Waveform shape"
        ∷ parameter "frequency" "float" false (default_double (double_of 1000))
            "Signal frequency in Hz"
        ∷ [];
  }

  unfoldable pub static_blocks : List (BlockDescriptor Double)
  static_blocks = wfm_rcv ∷ fft_vcc ∷ fir_filter_ccf ∷ add_ff ∷ null_sink ∷ signal_source_f ∷ []
