-- ===== src/LocalServer/Sockets.antt =====
-- apps/leave/src/local_server.rs: the three WebSockets. A loop handles what its `select!` picks, one
-- after the other, until it breaks; what a send or a write to the program answers is an argument.
use leave_cli.Prelude.{ℕ, ◌^◌, Bool, not, ◌&&◌, List, [], ◌∷◌, ltb, if◌then◌else◌}
use leave_cli.Prelude.Text.{Text}
use leave_cli.Crypto.Error.{Bytes}
use leave_cli.Acp.Events.{LocalEvent}

-- What `select!` picks in the stream of events: a frame of the client, or something of the channel.
-- The flag of what is sent says whether the client takes it.
pub data EventPick (V : Type 0) : Type 0 where
  client_closed client_frame events_closed : EventPick V
  event_received : LocalEvent V → Bool → EventPick V
  events_lagged : ℕ → Bool → EventPick V

-- What the client is sent.
pub data Notice (V : Type 0) : Type 0 where
  event_notice : LocalEvent V → Notice V
  replay_required : ℕ → Notice V

-- `websocket`; `encodes` says whether serde_json can write a notice.
unfoldable pub event_socket :
    {V : Type 0} → (Notice V → Bool) → List (EventPick V) → List (Notice V)
event_socket encodes [] = []
event_socket encodes (client_closed ∷ picks) = []
event_socket encodes (events_closed ∷ picks) = []
event_socket encodes (client_frame ∷ picks) = event_socket encodes picks
event_socket encodes (event_received e sent ∷ picks) =
    let rest = event_socket encodes picks in
    if not (encodes (event_notice e)) then [] else event_notice e ∷ (if sent then rest else [])
event_socket encodes (events_lagged skipped sent ∷ picks) =
    let rest = event_socket encodes picks in
    if not (encodes (replay_required skipped))
    then []
    else replay_required skipped ∷ (if sent then rest else [])

-- The terminal: `sized` is a text message that parses as a resize, with its two numbers.
pub data TerminalPick : Type 0 where
  typed : Bytes → Bool → TerminalPick
  sized : ℕ → ℕ → TerminalPick
  other_text other_frame hung_up : TerminalPick
  printed : Bytes → Bool → TerminalPick
  output_lagged output_closed : TerminalPick

-- What the loop does to the terminal and to the client.
pub data TerminalAct : Type 0 where
  write : Bytes → TerminalAct
  resize : ℕ → ℕ → TerminalAct
  show_client : Bytes → TerminalAct
  close_client : TerminalAct

-- `terminal_websocket`; a size that is no `u16` is skipped, and a failed resize is ignored.
unfoldable pub terminal_socket : List TerminalPick → List TerminalAct
terminal_socket [] = []
terminal_socket (hung_up ∷ picks) = []
terminal_socket (output_closed ∷ picks) = []
terminal_socket (output_lagged ∷ picks) = close_client ∷ []
terminal_socket (other_text ∷ picks) = terminal_socket picks
terminal_socket (other_frame ∷ picks) = terminal_socket picks
terminal_socket (typed bytes written ∷ picks) =
    let rest = terminal_socket picks in write bytes ∷ (if written then rest else [])
terminal_socket (printed bytes sent ∷ picks) =
    let rest = terminal_socket picks in show_client bytes ∷ (if sent then rest else [])
terminal_socket (sized rows cols ∷ picks) =
    let rest = terminal_socket picks in
    if ltb rows (2 ^ 16) && ltb cols (2 ^ 16) then resize rows cols ∷ rest else rest

-- The preview: `controlled` is a text message that parses as a control of type `C`.
pub data PreviewPick (C : Type 0) : Type 0 where
  controlled : C → PreviewPick C
  other_message closed_preview frames_lagged frames_closed : PreviewPick C
  framed : Text → Bool → PreviewPick C

pub data PreviewAct (C : Type 0) : Type 0 where
  control : C → PreviewAct C
  show_frame : Text → PreviewAct C

-- `preview_websocket`; a preview that lags skips frames.
unfoldable pub preview_socket : {C : Type 0} → List (PreviewPick C) → List (PreviewAct C)
preview_socket [] = []
preview_socket (closed_preview ∷ picks) = []
preview_socket (frames_closed ∷ picks) = []
preview_socket (frames_lagged ∷ picks) = preview_socket picks
preview_socket (other_message ∷ picks) = preview_socket picks
preview_socket (controlled c ∷ picks) = control c ∷ preview_socket picks
preview_socket (framed frame sent ∷ picks) =
    let rest = preview_socket picks in show_frame frame ∷ (if sent then rest else [])
