-- ===== src/Tests/Commands.antt =====
-- The theorem on the command at concrete libraries.
use kubto.Prelude.{ℕ, ◌≡◌, ◌↔◌, some, String}
use kubto.Command.{canceled, failure, got, fails, Libraries, default_flags, exit_status, main}
use kubto.Command.Exits.{ComesFrom, RunsWell, main_exits_cleanly_iff}

-- Outside a cluster: the default file is read, and the run is cancelled.
abbrev outside : Libraries String ℕ
outside = record {
  build_config_from_flags = λ master path. got path;
  in_cluster_config = fails (failure "not in a cluster");
  recommended_home_file = "/root/.kube/config";
  new_for_config = λ cfg. got 1;
  run = λ client. some canceled;
}

main_exits_cleanly_iff_example :
    (exit_status (main outside default_flags).1 ≡ 0)
    ↔ ((cfg : String) × ComesFrom outside "" cfg × RunsWell outside cfg)
main_exits_cleanly_iff_example = main_exits_cleanly_iff outside default_flags
