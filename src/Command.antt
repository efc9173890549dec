-- ===== src/Command.antt =====
-- autoscaler/cmd/main.go. The client libraries, and the run of the controller up to its return, are
-- parameters. The HTTP server is what it is set up with; it and its shutdown run beside the
-- controller, and only log their errors.
pub mod Exits
use kubto.Prelude.{
  ℕ, ◌*◌, Bool, true, false, Option, none, some, List, [], ◌∷◌, String, str_eq, if◌then◌else◌,
}
use kubto.Utils.{second}

-- An error: `context.Canceled` or another one.
pub data Error : Type 0 where
  canceled : Error
  failure : String → Error

pub data Fallible (A : Type 0) : Type 0 where
  got : A → Fallible A
  fails : Error → Fallible A

-- rest.Config is `C`, and a client `K`.
pub record Libraries (C K : Type 0) : Type 0 where
  pub build_config_from_flags : (master path : String) → Fallible C  -- clientcmd
  pub in_cluster_config : Fallible C  -- rest
  pub recommended_home_file : String
  pub new_for_config : C → Fallible K  -- kubernetes
  pub run : K → Option Error  -- `NewAutoscalerController(client).Run(ctx)`

pub record Flags : Type 0 where
  pub kubeconfig : String
  pub metrics_addr : String

abbrev pub default_flags : Flags
default_flags = record { kubeconfig = ""; metrics_addr = ":8080" }

pub data Handler : Type 0 where
  prometheus_handler : Handler
  answers : (status : ℕ) (body : String) → Handler

pub record Server : Type 0 where
  pub addr : String
  pub routes : List (String × Handler)
  pub read_header_timeout : ℕ
  pub shutdown_timeout : ℕ

unfoldable pub metrics_server : String → Option Server
metrics_server addr =
    if str_eq addr ""
    then none
    else some (record {
      addr = addr;
      routes = ("/metrics", prometheus_handler) ∷ ("/healthz", answers 200 "ok") ∷ [];
      read_header_timeout = 5 * second;
      shutdown_timeout = 3 * second;
    })

-- How the process ends: each of the first three is `log.Fatalf`.
pub data Ending : Type 0 where
  no_config no_client controller_failed : Error → Ending
  stopped_cleanly : Ending

abbrev pub exit_status : Ending → ℕ
exit_status (no_config e) = 1
exit_status (no_client e) = 1
exit_status (controller_failed e) = 1
exit_status stopped_cleanly = 0

-- `err != nil && err != context.Canceled`.
abbrev pub ending_of : Option Error → Ending
ending_of none = stopped_cleanly
ending_of (some canceled) = stopped_cleanly
ending_of (some (failure e)) = controller_failed (failure e)

module _ {C K : Type 0} (lib : Libraries C K) where
  abbrev in_cluster_or_file : Fallible C → Fallible C
  in_cluster_or_file (got cfg) = got cfg
  in_cluster_or_file (fails e) = lib.build_config_from_flags "" lib.recommended_home_file

  unfoldable pub build_config : String → Fallible C
  build_config kubeconfig =
      if str_eq kubeconfig ""
      then in_cluster_or_file lib.in_cluster_config
      else lib.build_config_from_flags "" kubeconfig

  abbrev after_client : String → Fallible K → Option Server × Ending
  after_client addr (fails e) = (none, no_client e)
  after_client addr (got client) = (metrics_server addr, ending_of (lib.run client))

  abbrev after_config : String → Fallible C → Option Server × Ending
  after_config addr (fails e) = (none, no_config e)
  after_config addr (got cfg) = after_client addr (lib.new_for_config cfg)

  -- The server that was started, and the end of the process.
  unfoldable pub main : Flags → Option Server × Ending
  main flags = after_config flags.metrics_addr (build_config flags.kubeconfig)
