-- ===== src/Client/Tests.antt =====
-- Main with texts that are the objects themselves.
use the_pipe.Base.{
  ℕ, ◌≤◌, some, none, true, String, inl, inr, ◌++◌, map, ◌≡◌, refl, List, [], ◌∷◌, arith,
}
use the_pipe.Base.Int.{ℤ, pos}
use the_pipe.Base.Results.{ok}
use the_pipe.Jopp.Sample.{Value, obj, sample, Fields, end}
use the_pipe.OsServices.Fd.Activity.{ActivityStatus, can_read}
use the_pipe.Log.{
  null_configuration, write_message, enter_context, leave_context, Severity, Item, Configuration,
  LogState,
}
use the_pipe.Log.Captured.{Place, capture, captured_write, captured_now}
use the_pipe.JsonLog.Converter.{to_jopp_object}
use the_pipe.JsonLog.Reader.{Parser, bytes, handle_event}
use the_pipe.JsonLog.Reader.Toy.{toy, toy_parse}
use the_pipe.JsonLog.Writer.{transferred, io_failed, write}
use the_pipe.JsonLog.Writer.Fixed.{exact, fixed_text, is_nil}
use the_pipe.JsonLog.Writer.Channel.{Channel, returned, make_writer, default_writer, write_item}
use the_pipe.JsonLog.Delivery.{IsReadBack, received}
use the_pipe.Client.Logged.{Says, client_config, logged_main, logged_main-terminated}
use the_pipe.Client.Received.{logged_main-received}
use the_pipe.ClientCtl.Whole.{whole, descriptors}
use the_pipe.ClientCtl.StartupConfig.{
  StartupConfig, connected_to_host, socket_fd, startup_config_to_jopp_object,
}
use the_pipe.Client.{Texts, load_config, main, report}
use the_pipe.Client.Outcome.{main-to_jopp_object}

abbrev same_text : Texts Fields
same_text = record {
  Text = Fields;
  to_string = λ o. o;
  parse = λ o. ok o;
  what = λ e. "failed";
  wrong_number = λ argc. "Wrong number of command line arguments";
  parse-to_string = λ o. refl;
}

-- A world that is the list of the items written.
abbrev recorder : Configuration (List Item)
recorder = record { write = λ item w. item ∷ w; now = λ w. (pos 7, w) }

abbrev before : LogState (List Item)
before = record { log_cfg = recorder; world = [] }

abbrev from_host : StartupConfig
from_host = connected_to_host (record { address = socket_fd (record { native_handle = pos 5 }) })

main-to_jopp_object_example :
    main sample whole same_text
      (List Item)
      recorder
      descriptors
      (end ∷ startup_config_to_jopp_object sample whole from_host ∷ [])
      before
    ≡ (
      pos 0,
      record before {
        world =
            record { when = pos 7; severity = Severity.info; message = "Process exited normally" }
            ∷ [];
      },
    )
main-to_jopp_object_example =
    main-to_jopp_object sample whole same_text (List Item) recorder descriptors before end from_host
      (5, refl, omega arith, refl)

-- A world with a clock and one stream.
abbrev World : Type 0
World = ℤ × Channel

abbrev stream : ℕ → Place World Channel
stream fd = record { get = λ w. w.1; set = λ ch w. (w.0, ch); get-set = λ ch w. refl }

abbrev ticking : Place World ℤ
ticking = record { get = λ w. w.0; set = λ k w. (k, w.1); get-set = λ k w. refl }

abbrev at_once : LogState World
at_once = record {
  log_cfg = null_configuration World;
  world = (
    pos 3,
    record {
      answers = transferred 2 ∷ transferred 1 ∷ transferred 1 ∷ [];
      sent = [];
      progress = returned;
    },
  );
}

abbrev tick : ℤ → ℤ × ℤ
tick k = (k, k)

abbrev failed_item : Item
failed_item = record { when = pos 3; severity = Severity.error; message = "failed" }

-- Every value is the object of that item.
abbrev item_parser : Parser Value
item_parser = record toy { container = λ s. obj (to_jopp_object sample exact failed_item) }

failed_item-IsReadBack : IsReadBack sample exact item_parser fixed_text failed_item
unfolding toy_parse
failed_item-IsReadBack =
    (b'0' ∷ b'{' ∷ [], to_jopp_object sample exact failed_item, refl, refl, λ k. refl)

-- With one argument main fails.
item-IsReadBack :
    (code : ℤ) (severity : Severity) (message : String)
    → Says sample whole same_text descriptors (end ∷ []) code severity message
    → IsReadBack sample exact item_parser fixed_text
        (record { when = pos 3; severity = severity; message = message })
      × (3 ≤ 3)
unfolding load_config
item-IsReadBack code severity message (inl (config, h, code_zero, is_info, normally)) = cc
item-IsReadBack code severity message (inr (e, h, minus, is_error, is_failed)) =
    rw (is_error, is_failed) (failed_item-IsReadBack, omega arith)

logged_main-received_example :
    (code : ℤ) × (severity : Severity) × (message : String) × Says sample whole same_text
      descriptors
      (end ∷ [])
      code
      severity
      message
    × ((logged_main sample whole same_text exact fixed_text stream ticking tick descriptors
          (end ∷ [])
          at_once).0
        ≡ some code)
    × (handle_event sample exact item_parser ActivityStatus.read
          (map bytes ((b'{' ∷ []) ∷ (b'0' ∷ b'}' ∷ []) ∷ []) ++ bytes [] ∷ [])
          []
        ≡ some (record {
          events =
              received sample exact item_parser fixed_text
                (record { when = pos 3; severity = severity; message = message })
              ∷ [];
          state = [];
          stopped = true;
          exception = none;
        }))
unfolding can_read logged_main main report load_config write_message enter_context leave_context
    client_config capture captured_write captured_now default_writer make_writer write_item write
    is_nil
logged_main-received_example =
    logged_main-received sample whole same_text exact fixed_text stream ticking tick descriptors
      item_parser (end ∷ []) at_once ActivityStatus.read ((b'{' ∷ []) ∷ (b'0' ∷ b'}' ∷ []) ∷ []) []
      (λ x w. refl) refl (omega arith) item-IsReadBack refl refl (omega arith) refl

-- The standard error stream is a pipe that nobody reads.
abbrev broken : LogState World
broken = record at_once {
  world = (pos 3, record { answers = io_failed 32 ∷ []; sent = []; progress = returned });
}

logged_main-terminated_example :
    ((logged_main sample whole same_text exact fixed_text stream ticking tick descriptors
        (end ∷ [])
        broken).0
      ≡ none)
    × ((logged_main sample whole same_text exact fixed_text stream ticking tick descriptors
          (end ∷ [])
          broken).1.world.1.sent
        ≡ [])
logged_main-terminated_example =
    logged_main-terminated sample whole same_text exact fixed_text stream ticking tick descriptors
      (end ∷ []) broken 32 [] (λ x w. refl) refl (λ item. omega arith)
