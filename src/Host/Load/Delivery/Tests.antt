-- ===== src/Host/Load/Delivery/Tests.antt =====
-- A client whose log pipe is 3 and 4, and whose socket is 5.
use the_pipe.Base.{ℕ, ◌≡◌, refl, false, true, Option, none, some, List, [], ◌∷◌, ◌++◌, map, arith}
use the_pipe.Base.Int.{ℤ, pos}
use the_pipe.Base.Results.{ok}
use the_pipe.Jopp.Sample.{sample, Fields, Value, obj, end}
use the_pipe.ClientCtl.Whole.{whole, descriptors}
use the_pipe.Log.{
  Severity, Item, LogState, null_configuration, write_message, enter_context, leave_context,
}
use the_pipe.Log.Captured.{Place, capture, captured_write, captured_now}
use the_pipe.OsServices.Fd.Activity.{ActivityStatus, can_read}
use the_pipe.OsServices.Io.{Call}
use the_pipe.OsServices.ProcMgmt.{Answers}
use the_pipe.OsServices.ProcMgmt.Inherited.Table.{Descriptors, descriptors as table}
use the_pipe.JsonLog.Converter.{to_jopp_object}
use the_pipe.JsonLog.Reader.{Parser, bytes, handle_event}
use the_pipe.JsonLog.Reader.Toy.{toy, toy_parse}
use the_pipe.JsonLog.Writer.{transferred, write}
use the_pipe.JsonLog.Writer.Fixed.{exact, fixed_text, is_nil}
use the_pipe.JsonLog.Writer.Channel.{Channel, returned, make_writer, default_writer, write_item}
use the_pipe.JsonLog.Delivery.{IsReadBack, received}
use the_pipe.Client.{Texts, main, report}
use the_pipe.Client.Logged.{client_config, logged_main}
use the_pipe.Host.Load.{LoadAnswers}
use the_pipe.Host.Load.Delivery.{streams, load_config-args_of, run_client, run_client-received}

abbrev same_text : Texts Fields
same_text = record {
  Text = Fields;
  to_string = λ o. o;
  parse = λ o. ok o;
  what = λ e. "failed";
  wrong_number = λ argc. "Wrong number of command line arguments";
  parse-to_string = λ o. refl;
}

abbrev zero_result : Call
zero_result = record { result = pos 0; errno = 0 }

abbrev made : LoadAnswers
made = record {
  logpipe = zero_result;
  log_read_end = 3;
  log_write_end = 4;
  ctl_sockets = zero_result;
  socket_a = 6;
  socket_b = 5;
  spawn = record {
    pipe = zero_result;
    read_end = 10;
    write_end = 11;
    fcntl = zero_result;
    eventfd = record { result = pos 13; errno = 0 };
    fork = record { result = pos 100; errno = 0 };
    pidfd_open = record { result = pos 12; errno = 0 };
    read = zero_result;
    child_errno = 0;
    wait = zero_result;
    send_signal = zero_result;
  };
  send_signal = zero_result;
}

abbrev fine : Answers
fine = record {
  dup2_stdin = zero_result;
  dup2_stdout = zero_result;
  dup2_stderr = zero_result;
  execve_errno = none;
}

abbrev before : Descriptors
before = record { file = λ g. some g; on_exec = λ g. false }

-- A world with a clock and one pipe.
abbrev World : Type 0
World = ℤ × Channel

abbrev pipes : Option ℕ → Place World Channel
pipes file = record { get = λ w. w.1; set = λ ch w. (w.0, ch); get-set = λ ch w. refl }

abbrev ticking : Place World ℤ
ticking = record { get = λ w. w.0; set = λ k w. (k, w.1); get-set = λ k w. refl }

abbrev tick : ℤ → ℤ × ℤ
tick k = (k, k)

abbrev at_start : LogState World
at_start = record {
  log_cfg = null_configuration World;
  world = (
    pos 3,
    record {
      answers = transferred 2 ∷ transferred 1 ∷ transferred 1 ∷ [];
      sent = [];
      progress = returned;
    },
  );
}

abbrev ended : Item
ended = record { when = pos 3; severity = Severity.info; message = "Process exited normally" }

-- Every value is the object of that item.
abbrev item_parser : Parser Value
item_parser = record toy { container = λ s. obj (to_jopp_object sample exact ended) }

ended-IsReadBack : IsReadBack sample exact item_parser fixed_text ended
unfolding toy_parse
ended-IsReadBack = (b'0' ∷ b'{' ∷ [], to_jopp_object sample exact ended, refl, refl, λ k. refl)

abbrev pieces : List (List ℕ)
pieces = (b'{' ∷ []) ∷ (b'0' ∷ b'}' ∷ []) ∷ []

abbrev run : Option ℤ × LogState World
run =
    run_client sample whole same_text table end made fine before exact fixed_text item_parser pipes
      ticking tick descriptors at_start

run-sent : b'{' ∷ b'0' ∷ b'}' ∷ [] ≡ run.1.world.1.sent
unfolding logged_main main report write_message enter_context leave_context client_config capture
    captured_write captured_now default_writer make_writer write_item write is_nil
run-sent =
    let (config, h) =
      load_config-args_of sample whole same_text table end made fine before World
        (client_config sample whole same_text exact fixed_text
          (streams sample whole same_text table end made fine before exact fixed_text item_parser
            pipes ticking tick descriptors)
          ticking tick descriptors)
        descriptors at_start (omega arith) refl in
    rw h refl

run_client-received_example :
    (run.0 ≡ some (pos 0))
    × (handle_event sample exact item_parser ActivityStatus.read
          (map bytes pieces ++ bytes [] ∷ [])
          []
        ≡ some (record {
          events = received sample exact item_parser fixed_text ended ∷ [];
          state = [];
          stopped = true;
          exception = none;
        }))
unfolding can_read
run_client-received_example =
    run_client-received sample whole same_text table end made fine before exact fixed_text
      item_parser pipes ticking tick descriptors at_start pieces ActivityStatus.read [] refl refl
      (omega arith) (omega arith) refl (λ x w. refl) refl (omega arith) (omega arith)
      ended-IsReadBack refl refl (omega arith) run-sent
