-- ===== src/Tests/Report.antt =====
-- The theorems on the usage report, with a service that signs every entry alike.
use h2hc_linker.Base.{
  ℕ, ◌≡◌, refl, true, List, [], ◌∷◌, ◌++◌, none, some, if◌then◌else◌, arith, nat_eq, ◌==◌,
}
use h2hc_linker.Base.Maps.{Unique, lookup, Map}
use h2hc_linker.Host.{ok}
use h2hc_linker.Report.{
  SpaceId, ReportHost, LinkerReport, start, fetched_ops, fetched_op_cmd, u64, process_reports,
  aggregate,
}
use h2hc_linker.Report.Totals.{process_reports_lem, lines, count_of, bytes_of}
use h2hc_linker.Report.History.{Event, fetches, processes}

abbrev report_host : ReportHost
report_host = record {
  timestamp = λ s. "0";
  space_text = λ s. "space";
  number_text = λ n. if n == 2 then "2" else "other";
  sign = λ entry. entry.op_count;
  json = λ entry. elim entry [ start ↦ ok "start" | fetched_ops e ↦ ok e.op_count ];
  can_write = λ text. true;
}

abbrev report : LinkerReport
report = record {
  agent_pubkey_str = "u";
  cmds = fetched_op_cmd 1 100 ∷ fetched_op_cmd 1 18446744073709551600 ∷ [];
  file = "start" ∷ [];
}

process_reports_lem_example :
    ((process_reports report_host report).cmds ≡ [])
    × ((m : Map SpaceId (ℕ × ℕ)) × Unique m
        × ((process_reports report_host report).file ≡ ("start" ∷ []) ++ lines report_host "u" m)
        × ((t : SpaceId)
            → lookup t m ≡ (
                if count_of t report.cmds == 0
                then none
                else some (count_of t report.cmds, u64 (bytes_of t report.cmds)))))
process_reports_lem_example = process_reports_lem report_host report (omega arith)

-- The bytes of the two ops wrap around.
bytes_wrap : lookup 1 (aggregate report.cmds []) ≡ some (2, 84)
unfolding aggregate
bytes_wrap = refl

abbrev history : List Event
history = fetches 1 5 ∷ processes ∷ fetches 2 8 ∷ fetches 1 7 ∷ []

abbrev idle : LinkerReport
idle = record { agent_pubkey_str = "u"; cmds = []; file = [] }
