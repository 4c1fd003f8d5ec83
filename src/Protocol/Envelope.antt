-- ===== src/Protocol/Envelope.antt =====
-- shared/protocol/src/envelope.rs: the sealed envelopes that follow a handshake. The cipher
-- (the crate aes-gcm) is a parameter.
pub mod Sync
pub mod Stream
pub mod Replay
pub mod Nonces
mod Examples
use Prim.Native.Nat.{compare, Ordering}
use nebula_display.Prelude.{
  ℕ, zero, suc, ◌+◌, ◌%◌, ◌^◌, ◌<◌, ◌≤◌, ◌≡◌, List, [], ◌∷◌, ◌++◌, Option, none, some, ltb,
  if◌then◌else◌, length, get_or, set, take, drop, replicate, Result, ok, err,
}
use nebula_display.Protocol.Error.{ProtocolError, malformed, crypto, replay}
use nebula_display.Protocol.Bytes.{to_be_bytes, from_be_bytes, be_value}

pub data Channel : Type 0 where
  control video audio : Channel

-- `chan as u8`.
abbrev pub chan_byte : Channel → ℕ
chan_byte control = 1
chan_byte video = 2
chan_byte audio = 3

-- `Channel::try_from`.
unfoldable pub channel_try_from : ℕ → Result ProtocolError Channel
channel_try_from (suc zero) = ok control
channel_try_from (suc (suc zero)) = ok video
channel_try_from (suc (suc (suc zero))) = ok audio
channel_try_from _ = err (malformed "unknown channel")

pub data Direction : Type 0 where
  server_to_client client_to_server : Direction

-- `dir as u8`.
abbrev pub dir_byte : Direction → ℕ
dir_byte server_to_client = 0
dir_byte client_to_server = 1

-- `[dir][chan][0; 2][counter; 8]`.
unfoldable pub nonce_for : Direction → Channel → ℕ → List ℕ
nonce_for dir chan counter = dir_byte dir ∷ chan_byte chan ∷ 0 ∷ 0 ∷ to_be_bytes 8 counter

-- What the code uses of AES-256-GCM: a cipher over a key, a nonce, associated data and a text.
-- `encrypt` gives the ciphertext followed by the tag.
pub record Aead : Type 0 where
  pub encrypt : List ℕ → List ℕ → List ℕ → List ℕ → List ℕ
  pub decrypt : List ℕ → List ℕ → List ℕ → List ℕ → Option (List ℕ)

-- What is documented of the cipher: it opens what it sealed, and its tag has 16 bytes.
pub record IsAead (c : Aead) : Type 0 where
  pub opens :
      (key nonce aad text : List ℕ)
      → c.decrypt key nonce aad (c.encrypt key nonce aad text) ≡ some text
  pub tag_len :
      (key nonce aad text : List ℕ) → length (c.encrypt key nonce aad text) ≡ length text + 16

abbrev pub u64_max : ℕ
u64_max = 0xffff_ffff_ffff_ffff

pub record Sealer : Type 0 where
  pub key : List ℕ
  pub dir : Direction
  pub counters : List ℕ

pub record Opener : Type 0 where
  pub key : List ℕ
  pub dir : Direction
  pub next_expected : List ℕ

-- `Sealer::new` and `Opener::new`.
unfoldable pub new_sealer : List ℕ → Direction → Sealer
new_sealer session_key dir = record { key = session_key; dir = dir; counters = replicate 4 0 }

unfoldable pub new_opener : List ℕ → Direction → Opener
new_opener session_key dir = record { key = session_key; dir = dir; next_expected = replicate 4 0 }

-- The entry of a table of counters for a channel.
abbrev pub at_chan : List ℕ → Channel → ℕ
at_chan counters chan = get_or counters (chan_byte chan) 0

abbrev pub concat : List (List ℕ) → List ℕ
concat [] = []
concat (p ∷ ps) = p ++ concat ps

-- `[chan][counter; 8]`, the bytes before the ciphertext.
abbrev pub header : Channel → ℕ → List ℕ
header chan counter = chan_byte chan ∷ to_be_bytes 8 counter

-- `Sealer::seal_parts`; `none` is the panic when the counter would overflow.
unfoldable pub seal_parts : Aead → Sealer → Channel → List (List ℕ) → Option (Sealer × List ℕ)
seal_parts c s chan parts =
    let counter = at_chan s.counters chan in
    if ltb counter u64_max
    then some (
      record s { counters = set s.counters (chan_byte chan) (counter + 1) },
      header chan counter
          ++ c.encrypt s.key (nonce_for s.dir chan counter) (chan_byte chan ∷ []) (concat parts),
    )
    else none

-- `Sealer::seal`.
unfoldable pub seal : Aead → Sealer → Channel → List ℕ → Option (Sealer × List ℕ)
seal c s chan plaintext = seal_parts c s chan (plaintext ∷ [])

-- The counter that an envelope carries.
abbrev pub env_counter : List ℕ → ℕ
env_counter envelope = from_be_bytes (take 8 (drop 1 envelope))

-- The end of `Opener::open`: only a text that the cipher accepts moves the counter. The sum is that
-- of a release build, which wraps.
pub accept :
    Opener → Channel → ℕ → Option (List ℕ) → Opener × Result ProtocolError (Channel × List ℕ)
accept o chan counter none = (o, err (crypto "envelope AEAD open failed"))
accept o chan counter (some pt) = (
  record o { next_expected = set o.next_expected (chan_byte chan) ((counter + 1) % 2 ^ 64) },
  ok (chan, pt),
)

pub open_on :
    Aead
    → Opener
    → List ℕ
    → Result ProtocolError Channel
    → Opener × Result ProtocolError (Channel × List ℕ)
unfolding accept
open_on c o envelope (err e) = (o, err e)
open_on c o envelope (ok chan) =
    let counter = env_counter envelope in
    if ltb counter (at_chan o.next_expected chan)
    then (o, err replay)
    else accept o chan counter
        (c.decrypt o.key (nonce_for o.dir chan counter) (chan_byte chan ∷ []) (drop 9 envelope))

-- `Opener::open`, with the new state.
unfoldable pub open_envelope :
    Aead → Opener → List ℕ → Opener × Result ProtocolError (Channel × List ℕ)
unfolding open_on
open_envelope c o envelope =
    if ltb (length envelope) (1 + 8 + 16)
    then (o, err (malformed "envelope too short"))
    else open_on c o envelope (channel_try_from (get_or envelope 0 0))
