-- ===== src/Server/RequestTests.antt =====
-- Runs of the daemon's answers, and inputs at which their theorems hold. A document is its text.
use Prim.Native.String.{String}
use falkn.Base.{◌≡◌, ◌↔◌, refl, true, false, [], some, none, nat_eq, list_eq, length}
use falkn.Base.Int.{pos}
use falkn.Base.Text.{trim_space, codes, string_eq}
use falkn.Session.Manager.{Manager, World, new_manager}
use falkn.Base.Assoc.{insert}
use falkn.Session.Manager.Create.{Machine, create_shell, add_session, launch}
use falkn.Session.Manager.Calls.{checked_title}
use falkn.Session.Manager.Disk.{persist}
use falkn.Session.Manager.Effects.Listed.{NoneRunning}
use falkn.Session.Manager.Invariant.Every.{Call, perform_all}
use falkn.Server.Requests.{Request, Decoders, Host, success, failure, accepted, respond, dispatch}
use falkn.Session.Manager.Invariant.Every
use falkn.Server.Requests.Asked.{Answers}
use falkn.Server.Requests.Answers.{IsValid, dispatch_shutdown}
use falkn.Workspace.{resolve, directory, entries}

abbrev decode : Decoders String
decode = record {
  directory_params = λ j. some (codes j);
  create_params = λ j. none;
  shell_params = λ j. some record {
    title = codes j;
    directory = codes "~";
    agent_id = "";
    permission_mode = "";
    additional_arguments = [];
    terminal_columns = pos 80;
    terminal_rows = pos 24;
  };
  transcript_params = λ j. some record { session_id = j; history_lines = pos 10 };
  resize_params = λ j. some record { session_id = j; columns = pos 90; rows = pos 30 };
  send_params = λ j. some record { session_id = j; text = codes "ls" };
  key_params = λ j. some record { session_id = j; key = "Enter" };
  session_params = λ j. some record { session_id = j };
  rename_params = λ j. none;
}

abbrev world : World
world = record {
  valid = λ t. t;
  screen = λ id. none;
  foreground = λ id. ("", "");
  shell_name = λ id. "zsh";
  writable = true;
  writable_again = true;
  killable = true;
  accepts_input = true;
  accepts_return = true;
  resizable = true;
}

abbrev machine : Machine
machine = record {
  has_executable = λ s. false;
  user_shell = some "zsh";
  files = record {
    home = some (codes "/home/me");
    stat = λ p. directory;
    read_dir = λ p. entries [];
  };
  new_session_id = some "falkn-1";
  starts = true;
  now = 7;
  lower_rune = λ c. c;
}

abbrev host : Host
host = record {
  machine = machine;
  tables = record { codex_idle_footer = λ t. false; lower_rune = λ c. c };
  agents = [];
  executable = λ s. none;
  describe = λ e. codes "failed";
  describe_path = λ k. codes "no directory";
  say_version = λ v. codes "version";
  say_busy = λ n. codes "busy";
  say_method = λ s. codes "method";
}

abbrev request : String → String → Request String
request method params = record {
  version = pos 1;
  request_id = "r1";
  method = method;
  params = some params;
}

abbrev after_shell : Manager
after_shell = (dispatch decode host world (request "shell.create" "build") (new_manager none)).1

shell_runs : length after_shell.sessions ≡ 1
unfolding dispatch create_shell add_session insert checked_title trim_space resolve launch persist
    new_manager
shell_runs = refl

unknown_runs :
    (dispatch decode host world (request "spawn" "") (new_manager none)).0
    ≡ respond "r1" (failure "unknown_method" (codes "method"))
unfolding dispatch
unknown_runs = refl

valid : IsValid decode host world (request "daemon.shutdown" "")
valid = record { version = refl; identified = λ q. cc }

dispatch_shutdown_example :
    ((dispatch decode host world (request "daemon.shutdown" "") (new_manager none)).0
      ≡ respond "r1" (success accepted))
    ↔ NoneRunning (new_manager none).sessions
dispatch_shutdown_example =
    dispatch_shutdown decode host world (request "daemon.shutdown" "") (new_manager none) valid refl
