-- ===== src/Host/State/Examples.antt =====
-- Runs of the theorems on live clients.
use nebula_display.Prelude.{◌≡◌, refl, not, insert, true, false, Option, some, List, [], ◌∷◌, codes}
use nebula_display.Host.Trust.{TrustedDevice, get}
use nebula_display.Host.State.{
  ClientHandle, LiveState, grant_input, revoke_device, cursor_channel_active, publish_policy,
  published, refresh_cursor_policy, insert_client, count_client,
}
use nebula_display.Host.State.Census.{ClientEvent, joins, leaves, no_clients}
use nebula_display.Host.State.Overlaps.{LockStep, begins, ends, runs}
use nebula_display.Host.State.Pushes.{Pushed, InputSet, Kicked, grant_input_lem, revoke_device_lem}

abbrev tablet : ClientHandle
tablet = record {
  device_id = codes "dev";
  name = codes "Tablet";
  platform = codes "android";
  addr = 7;
  connected_unix = 1;
  input_allowed = true;
  clipboard_allowed = false;
  audio_allowed = true;
  audio_active = false;
  supports_cursor = true;
  sending_file = false;
  commands = [];
}

abbrev old_viewer : ClientHandle
old_viewer = record tablet { device_id = codes "old"; supports_cursor = false }

abbrev device : TrustedDevice
device = record {
  device_id = codes "dev";
  name = codes "Tablet";
  platform = codes "android";
  token_hex = codes "00";
  created_unix = 1;
  last_seen_unix = 1;
  input_allowed = true;
  clipboard_allowed = false;
  audio_allowed = true;
}

abbrev live : LiveState
live = record {
  trust = record { devices = device ∷ []; saved = [] };
  clients = (1, tablet) ∷ (2, old_viewer) ∷ [];
  next_client_id = 3;
  shown_clients = 2;
  composited = true;
  cursor_seq = 1;
}

grant_input_lem_example :
    Pushed (codes "dev") (InputSet false) live (grant_input live (codes "dev") false true)
    × ((d : TrustedDevice)
        → get (grant_input live (codes "dev") false true).0.trust (codes "dev") ≡ some d
        → d.input_allowed ≡ false)
grant_input_lem_example = grant_input_lem live (codes "dev") false true

revoke_device_lem_example :
    Pushed (codes "dev") Kicked live (revoke_device live (codes "dev") true)
    × (get (revoke_device live (codes "dev") true).0.trust (codes "dev") ≡ Option.none)
revoke_device_lem_example = revoke_device_lem live (codes "dev") true

abbrev comings : List ClientEvent
comings = joins tablet ∷ joins old_viewer ∷ leaves 1 ∷ leaves 1 ∷ []

abbrev crossing : List LockStep
crossing = begins tablet ∷ runs 0 ∷ begins old_viewer ∷ runs 1 ∷ runs 0 ∷ runs 1 ∷ ends 1 ∷ []

-- The tablet registers and reads the policy; an old viewer registers meanwhile; the tablet's is published last.
abbrev both_registered : LiveState
both_registered = refresh_cursor_policy (
    count_client
      (insert_client (count_client (insert_client (no_clients live.trust) tablet)) old_viewer))

overlapped :
    (cursor_channel_active both_registered ≡ false)
    × ((publish_policy
          (not
            (cursor_channel_active (count_client (insert_client (no_clients live.trust) tablet))))
          both_registered).composited
        ≡ false)
unfolding refresh_cursor_policy cursor_channel_active published insert
overlapped = (refl, refl)
