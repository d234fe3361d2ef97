-- ===== src/Config.antt =====
-- src/config.rs. A `Duration` is its number of milliseconds; a `usize` is a number.
use net_mux.Base.{ℕ, ◌*◌, max, Option, some}

pub record Config : Type 0 where
  pub initial_stream_window : ℕ  -- u32
  pub max_frame_size : ℕ  -- u32
  pub max_streams : ℕ
  pub keepalive_interval : Option ℕ
  pub keepalive_timeout : ℕ
  pub open_timeout : ℕ

-- `Config::default`
abbrev pub default : Config
default = record {
  initial_stream_window = 256 * 1024;
  max_frame_size = 64 * 1024;
  max_streams = 1024;
  keepalive_interval = some 30000;
  keepalive_timeout = 30000;
  open_timeout = 10000;
}

-- `ConfigBuilder`: each setter returns the builder; `build` returns its configuration.
pub record ConfigBuilder : Type 0 where
  pub inner : Config

abbrev pub builder : ConfigBuilder
builder = record { inner = default }

pub data Setting : Type 0 where
  initial_stream_window max_frame_size max_streams : ℕ → Setting
  keepalive_interval : Option ℕ → Setting
  keepalive_timeout open_timeout : ℕ → Setting

-- One call of a setter.
pub override : Setting → ConfigBuilder → ConfigBuilder
override (initial_stream_window n) b = record {
  inner = record (b.inner) { initial_stream_window = max n 1 };
}
override (max_frame_size n) b = record { inner = record (b.inner) { max_frame_size = max n 1 } }
override (max_streams n) b = record { inner = record (b.inner) { max_streams = max n 1 } }
override (keepalive_interval d) b = record { inner = record (b.inner) { keepalive_interval = d } }
override (keepalive_timeout d) b = record { inner = record (b.inner) { keepalive_timeout = d } }
override (open_timeout d) b = record { inner = record (b.inner) { open_timeout = d } }

pub build : ConfigBuilder → Config
build b = b.inner
