-- ===== src/Host/State.antt =====
-- host/service/src/state.rs: the part of `AppState` that knows the live clients: their registration, the
-- cursor policy, and the pushes of the panel's decisions to the trust store and to live sessions. The
-- outcome of a save of the store is an argument. A registration and the end of a client are several steps, each
-- under its own lock: `register_client` and `unregister_client` are these steps with no other call between
-- them, and Overlaps interleaves them. A client's command channel holds eight commands; an
-- atomic flag that a handle shares with its session is a field of the handle.
pub mod Census
pub mod Overlaps
pub mod Pushes
mod Examples
use nebula_display.Prelude.{
  ℕ, ◌+◌, ◌-◌, ◌%◌, ◌^◌, Bool, true, false, not, ◌&&◌, Option, none, some, List, [], ◌∷◌, ◌++◌, map,
  ltb, if◌then◌else◌, length, list_eq, codes, nat_eq, lookup, insert, remove, Result, ok, err,
}
use nebula_display.Host.Trust.{
  TrustStore, IoError, set_input_allowed, set_clipboard_allowed, set_audio_allowed, revoke,
}
use nebula_display.Host.Session.Commands.{
  Command, set_input_grant, set_clipboard_grant, set_audio_grant, kick,
}

abbrev pub command_capacity : ℕ
command_capacity = 8

pub record ClientHandle : Type 0 where
  pub device_id : List ℕ
  pub name : List ℕ
  pub platform : List ℕ
  pub addr : ℕ
  pub connected_unix : ℕ
  pub input_allowed : Bool
  pub clipboard_allowed : Bool
  pub audio_allowed : Bool
  pub audio_active : Bool
  pub supports_cursor : Bool
  pub sending_file : Bool
  pub commands : List Command  -- those that the session has not taken

abbrev pub Clients : Type 0
Clients = List (ℕ × ClientHandle)

pub record LiveState : Type 0 where
  pub trust : TrustStore
  pub clients : Clients
  pub next_client_id : ℕ
  pub shown_clients : ℕ  -- `host_stats.clients`
  pub composited : Bool  -- of the cursor state
  pub cursor_seq : ℕ

abbrev all_support : Clients → Bool
all_support [] = true
all_support ((id, c) ∷ cs) = c.supports_cursor && all_support cs

unfoldable pub cursor_channel_active : LiveState → Bool
cursor_channel_active s = all_support s.clients

-- The cursor state is published again when the policy changes.
pub published : Bool → Bool → LiveState → LiveState
published true true s = s
published false false s = s
published composited old s = record s { composited = composited; cursor_seq = s.cursor_seq + 1 }

-- `send_if_modified` of `refresh_cursor_policy`.
abbrev pub publish_policy : Bool → LiveState → LiveState
publish_policy composited s = published composited s.composited s

-- The clients are read, and what was read is published, under two locks.
unfoldable pub refresh_cursor_policy : LiveState → LiveState
unfolding cursor_channel_active
refresh_cursor_policy s = publish_policy (not (cursor_channel_active s)) s

abbrev pub insert_client : LiveState → ClientHandle → LiveState
insert_client s handle = record s {
  clients = insert s.next_client_id handle s.clients;
  next_client_id = (s.next_client_id + 1) % 2 ^ 64;
}

abbrev pub count_client : LiveState → LiveState
count_client s = record s { shown_clients = (s.shown_clients + 1) % 2 ^ 32 }

abbrev pub remove_client : LiveState → ℕ → LiveState
remove_client s id = record s { clients = remove id s.clients }

abbrev pub uncount_client : LiveState → LiveState
uncount_client s = record s { shown_clients = s.shown_clients - 1 }

-- The steps of a registration, with no other call between them.
unfoldable pub register_client : LiveState → ClientHandle → LiveState × ℕ
register_client s handle =
    (refresh_cursor_policy (count_client (insert_client s handle)), s.next_client_id)

unregister_found : LiveState → ℕ → Option ClientHandle → LiveState
unregister_found s id none = s
unregister_found s id (some handle) = refresh_cursor_policy (uncount_client (remove_client s id))

-- The steps of an end, with no other call between them.
unfoldable pub unregister_client : LiveState → ℕ → LiveState
unfolding unregister_found
unregister_client s id = unregister_found s id (lookup id s.clients)

-- `commands.try_send(..)`, whose result is ignored.
abbrev pub push_command : Command → ClientHandle → ClientHandle
push_command cmd c =
    if ltb (length c.commands) command_capacity
    then record c { commands = c.commands ++ (cmd ∷ []) }
    else c

-- The loops over the live clients of a device.
unfoldable pub for_device : List ℕ → (ClientHandle → ClientHandle) → Clients → Clients
for_device id f cs = map (λ p. if list_eq p.1.device_id id then (p.0, f p.1) else p) cs

-- The clients see the change only when the store has saved it.
pushed :
    List ℕ
    → (ClientHandle → ClientHandle)
    → LiveState
    → TrustStore × Result IoError Bool
    → LiveState × Result IoError Bool
unfolding for_device
pushed id f s (trust, err e) = (record s { trust = trust }, err e)
pushed id f s (trust, ok found) =
    (record s { trust = trust; clients = for_device id f s.clients }, ok found)

-- `set_input_grant` and its kin, and `revoke_device`.
unfoldable pub grant_input : LiveState → List ℕ → Bool → Bool → LiveState × Result IoError Bool
unfolding pushed
grant_input s id allowed good =
    pushed id (λ c. push_command (set_input_grant allowed) (record c { input_allowed = allowed })) s
      (set_input_allowed s.trust id allowed good)

unfoldable pub grant_clipboard : LiveState → List ℕ → Bool → Bool → LiveState × Result IoError Bool
unfolding pushed
grant_clipboard s id allowed good =
    pushed id
      (λ c. push_command (set_clipboard_grant allowed) (record c { clipboard_allowed = allowed })) s
      (set_clipboard_allowed s.trust id allowed good)

unfoldable pub grant_audio : LiveState → List ℕ → Bool → Bool → LiveState × Result IoError Bool
unfolding pushed
grant_audio s id allowed good =
    pushed id (λ c. push_command (set_audio_grant allowed) (record c { audio_allowed = allowed })) s
      (set_audio_allowed s.trust id allowed good)

unfoldable pub revoke_device : LiveState → List ℕ → Bool → LiveState × Result IoError Bool
unfolding pushed
revoke_device s id good =
    pushed id (push_command (kick (codes "device revoked by host"))) s (revoke s.trust id good)
