-- ===== src/OsServices/Fd/Monitor.antt =====
-- activity_monitor in src/os_services/fd/activity_monitor.hpp: the abstract class is an interface,
-- and an event handler whose type is forgotten is a record with that type. An object in memory is
-- its value; a handler that changes itself returns its new value.
use the_pipe.Base.{◌≡◌, refl, List, [], ◌∷◌, map}
use the_pipe.OsServices.Fd.Activity.{ActivityStatus, EventHandlerId}
use the_pipe.OsServices.Fd.Descriptor.{
  PlainTag, Tag, plain, generic, TaggedFileDescriptorRef, TaggedFileDescriptor,
  make_generic_file_descriptor,
}

pub record NewActivityEvent (tag : Tag) : Type 0 where
  pub fd : TaggedFileDescriptorRef tag
  pub status : ActivityStatus
  pub event_handler : EventHandlerId

-- std::bit_cast of an event.
unfoldable pub bit_cast : {tag other : Tag} → NewActivityEvent tag → NewActivityEvent other
bit_cast event = record {
  fd = record { native_handle = event.fd.native_handle };
  status = event.status;
  event_handler = event.event_handler;
}

-- What `handle_event` does to the handler and to the state of the monitor.
abbrev pub HandleEvent {ℓ} : Type 0 → Tag → Type ℓ → Type ℓ
HandleEvent Handler tag State = Handler → NewActivityEvent tag → State → Handler × State

pub record EventHandlerInfo {ℓ} (State : Type ℓ) : Type (1 ⊔ ℓ) where
  pub Object : Type 0
  pub object : Object
  pub handle_event : HandleEvent Object generic State

module _ {ℓ} {State : Type ℓ} where
  -- One event after the other, for a handler of a known type and for one of a forgotten type.
  unfoldable pub handle_events :
      {Handler : Type 0} {tag : Tag}
      → HandleEvent Handler tag State
      → Handler
      → List (NewActivityEvent tag)
      → State
      → Handler × State
  handle_events handle eh [] s = (eh, s)
  handle_events handle eh (event ∷ events) s =
      let (eh', s') = handle eh event s in handle_events handle eh' events s'

  unfoldable pub handle_erased :
      (info : EventHandlerInfo State)
      → List (NewActivityEvent generic)
      → State
      → info.Object × State
  unfolding handle_events
  handle_erased info events s = handle_events info.handle_event info.object events s

  -- The fields that `add` fills in.
  abbrev pub event_handler_info :
      {Handler : Type 0} {tag : Tag}
      → HandleEvent Handler tag State
      → Handler
      → EventHandlerInfo State
  event_handler_info {Handler = Handler} handle eh = record {
    Object = Handler;
    object = eh;
    handle_event = λ object event s. handle object (bit_cast event) s;
  }

-- The functions that are virtual.
pub record ActivityMonitor : Type 2 where
  pub State : Type 1
  pub do_add :
      EventHandlerInfo State
      → TaggedFileDescriptor generic
      → ActivityStatus
      → State
      → EventHandlerId × State
  pub do_update_listening_status : TaggedFileDescriptorRef generic → ActivityStatus → State → State
  pub remove : EventHandlerId → State → State

module _ (m : ActivityMonitor) where
  unfoldable pub update_listening_status :
      {tag : Tag} → TaggedFileDescriptorRef tag → ActivityStatus → m.State → m.State
  update_listening_status fd new_status s =
      m.do_update_listening_status (record { native_handle = fd.native_handle }) new_status s

  -- The id, the monitor, and the owner that was moved from.
  unfoldable pub add :
      {Handler : Type 0} {tag : PlainTag}
      → HandleEvent Handler (plain tag) m.State
      → Handler
      → TaggedFileDescriptor (plain tag)
      → ActivityStatus
      → m.State
      → EventHandlerId × m.State × TaggedFileDescriptor (plain tag)
  unfolding make_generic_file_descriptor
  add handle eh fd_to_watch initial_listening_status s =
      let (id, s') =
        m.do_add (event_handler_info handle eh) (make_generic_file_descriptor fd_to_watch).0
          initial_listening_status s in
      (id, s', (make_generic_file_descriptor fd_to_watch).1)

module _ {ℓ} {State : Type ℓ} {Handler : Type 0} {tag : Tag}
    (handle : HandleEvent Handler tag State) where
  -- A handler whose type was forgotten does on any events what the handler itself does on these
  -- events with its own kind of descriptor.
  pub handle_erased-event_handler_info :
      (eh : Handler) (events : List (NewActivityEvent generic)) (s : State)
      → handle_erased (event_handler_info handle eh) events s
        ≡ handle_events handle eh (map bit_cast events) s
  unfolding handle_erased handle_events
  handle_erased-event_handler_info eh [] s = refl
  handle_erased-event_handler_info eh (event ∷ events) s =
      let (eh', s') = handle eh (bit_cast event) s in handle_erased-event_handler_info eh' events s'
