-- ===== src/Report.antt =====
-- src/linker_report.rs: the report of the ops fetched from peers. The state holds the queue of
-- commands and the lines of the file.
pub mod Totals
pub mod History
use h2hc_linker.Base.{
  ℕ, ◌+◌, ◌%◌, String, Bool, List, [], ◌∷◌, ◌++◌, Option, none, some, if◌then◌else◌, ltb, nat_eq,
}
use h2hc_linker.Base.Lists.{length}
use h2hc_linker.Base.Maps.{Map, lookup, insert}
use h2hc_linker.Host.{Fallible, ok, err}

-- A space, by its id.
abbrev pub SpaceId : Type 0
SpaceId = ℕ

pub record HcReportConfig : Type 0 where
  pub days_retained : ℕ
  pub path : String
  pub fetched_op_interval_s : ℕ

abbrev pub default : HcReportConfig
default = record {
  days_retained = 5;
  path = "/tmp/h2hc-linker-reports";
  fetched_op_interval_s = 60;
}

pub data Cmd : Type 0 where
  fetched_op_cmd : SpaceId → ℕ → Cmd

pub record ReportEntryFetchedOps : Type 0 where
  pub timestamp : String
  pub space : String
  pub op_count : String
  pub total_bytes : String
  pub agent_pubkeys : List String
  pub signatures : List String

pub data ReportEntry : Type 0 where
  start : ReportEntry
  fetched_ops : ReportEntryFetchedOps → ReportEntry

-- The time at an entry, the texts of a space and a number, the signature of an entry in base64, the
-- JSON of an entry, and whether a line can be written.
pub record ReportHost : Type 0 where
  pub timestamp : SpaceId → String
  pub space_text : SpaceId → String
  pub number_text : ℕ → String
  pub sign : ReportEntryFetchedOps → String
  pub json : ReportEntry → Fallible String
  pub can_write : String → Bool

pub record LinkerReport : Type 0 where
  pub agent_pubkey_str : String
  pub cmds : List Cmd
  pub file : List String

-- The capacity of the channel.
abbrev pub capacity : ℕ
capacity = 4096

-- `u64`
abbrev pub u64 : ℕ → ℕ
u64 n = n % 18446744073709551616

module _ (host : ReportHost) where
  unfoldable pub write : ReportEntry → LinkerReport → LinkerReport
  write data_entry r = elim (host.json data_entry) [
    | err e ↦ r
    | ok text ↦ if host.can_write text then record r { file = r.file ++ text ∷ [] } else r
  ]

  unfoldable pub create : String → LinkerReport
  create agent_pubkey_str =
      write start (record { agent_pubkey_str = agent_pubkey_str; cmds = []; file = [] })

-- `try_send`: a command that finds the channel full is dropped.
unfoldable pub fetched_op : SpaceId → ℕ → LinkerReport → LinkerReport
fetched_op space_id size_bytes r =
    if ltb (length r.cmds) capacity
    then record r { cmds = r.cmds ++ fetched_op_cmd space_id size_bytes ∷ [] }
    else r

-- `entry(space_id).or_default()`
abbrev pub or_default : Option (ℕ × ℕ) → ℕ × ℕ
or_default none = (0, 0)
or_default (some e) = e

abbrev pub add_op : ℕ → ℕ × ℕ → ℕ × ℕ
add_op size_bytes (count, bytes) = (u64 (count + 1), u64 (bytes + size_bytes))

unfoldable pub aggregate : List Cmd → Map SpaceId (ℕ × ℕ) → Map SpaceId (ℕ × ℕ)
aggregate [] m = m
aggregate (fetched_op_cmd space_id size_bytes ∷ cmds) m =
    aggregate cmds (insert space_id (add_op size_bytes (or_default (lookup space_id m))) m)

module _ (host : ReportHost) where
  abbrev pub unsigned : String → SpaceId → ℕ × ℕ → ReportEntryFetchedOps
  unsigned agent_pubkey_str space_id (op_count, total_bytes) = record {
    timestamp = host.timestamp space_id;
    space = host.space_text space_id;
    op_count = host.number_text op_count;
    total_bytes = host.number_text total_bytes;
    agent_pubkeys = agent_pubkey_str ∷ [];
    signatures = [];
  }

  abbrev pub signed : ReportEntryFetchedOps → ReportEntryFetchedOps
  signed entry = record entry { signatures = host.sign entry ∷ [] }

  unfoldable pub write_all : Map SpaceId (ℕ × ℕ) → LinkerReport → LinkerReport
  write_all [] r = r
  write_all ((space_id, totals) ∷ rest) r =
      write_all rest
        (write host (fetched_ops (signed (unsigned r.agent_pubkey_str space_id totals))) r)

  unfoldable pub process_reports : LinkerReport → LinkerReport
  process_reports r = write_all (aggregate r.cmds []) (record r { cmds = [] })
