-- ===== src/Rawx/Command.antt =====
-- Range and RawxCommand of src/oio/blob/rawx/blob.hpp.
use oio_sds_cpp.Prelude.{ℕ}
use oio_sds_cpp.Rawx.Url.{RawxUrl, empty_url}

pub record Range : Type 0 where
  pub start : ℕ
  pub size : ℕ

abbrev pub empty_range : Range
empty_range = record { start = 0; size = 0 }

pub record RawxCommand : Type 0 where
  pub url : RawxUrl
  pub range : Range
  pub chunk_size : ℕ

-- RawxCommand::RawxCommand and RawxCommand::Clear
abbrev pub empty_command : RawxCommand
empty_command = record { url = empty_url; range = empty_range; chunk_size = 0 }
