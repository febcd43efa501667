-- ===== src/Terminal/Sockets.antt =====
-- ws-conn/ws-connection-handler.go, ws-conn/err_handler.go, and exec/activity-connection-saver.go. A
-- connection is a number. The lock is held over each method, so a method is one step; which
-- connections accept a write is an argument.
pub mod Remove
use che_machine_exec.Common.{
  ℕ, zero, suc, Text, Bool, true, false, ◌||◌, Option, none, some, List, [], ◌∷◌, ◌++◌,
  if◌then◌else◌, ◌==◌, length,
}

-- `IsClosedByClientError` on the code of a close error; `none` is any other error.
unfoldable pub is_closed_by_client_error : Option ℕ → Bool
is_closed_by_client_error none = false
is_closed_by_client_error (some close_code) =
    close_code == 1001 || close_code == 1000 || close_code == 1005

abbrev pub read_connection : ℕ → List ℕ → List ℕ
read_connection conn conns = conns ++ conn ∷ []

-- The last of a list that starts with `x`.
unfoldable pub last_from : ℕ → List ℕ → ℕ
last_from x [] = x
last_from x (y ∷ ys) = last_from y ys

-- The loop of `removeConnection`: `range` reads the array at each index that it had at the start, while
-- `append` moves its elements. The list in use is `passed ++ ahead`; `stale` is the array behind it. `none`
-- is the panic of a slice whose low bound is past its length.
unfoldable pub remove_loop : ℕ → ℕ → List ℕ → List ℕ → List ℕ → Option (List ℕ)
unfolding last_from
remove_loop conn zero passed ahead stale = some (passed ++ ahead)
remove_loop conn (suc left) passed [] [] = some passed
remove_loop conn (suc left) passed [] (s ∷ stale) =
    let rest = remove_loop conn left passed [] stale in if s == conn then none else rest
remove_loop conn (suc left) passed (x ∷ []) stale =
    let removed = remove_loop conn left passed [] stale in
    let kept = remove_loop conn left (passed ++ x ∷ []) [] stale in
    if x == conn then removed else kept
remove_loop conn (suc left) passed (x ∷ y ∷ ys) stale =
    let removed = remove_loop conn left (passed ++ y ∷ []) ys (last_from y ys ∷ stale) in
    let kept = remove_loop conn left (passed ++ x ∷ []) (y ∷ ys) stale in
    if x == conn then removed else kept

unfoldable pub remove_connection : ℕ → List ℕ → Option (List ℕ)
unfolding remove_loop
remove_connection conn conns = remove_loop conn (length conns) [] conns []

-- The connections after `WriteDataToWsConnections`, and what it sent.
pub record Sent : Type 0 where
  pub conns : List ℕ
  pub messages : List (ℕ × Text)

unfoldable pub write_data_to_ws_connections : (ℕ → Bool) → Text → List ℕ → Sent
write_data_to_ws_connections accepts data' [] = record { conns = []; messages = [] }
write_data_to_ws_connections accepts data' (conn ∷ conns) =
    let rest = write_data_to_ws_connections accepts data' conns in
    if accepts conn
    then record { conns = conn ∷ rest.conns; messages = (conn, data') ∷ rest.messages }
    else rest

-- `CloseConnections`: the connections it closes, and those it keeps.
abbrev pub close_connections : List ℕ → List ℕ × List ℕ
close_connections conns = (conns, [])

-- What `ReadMessage` gives.
pub data Message : Type 0 where
  failed : Message
  text_message : Text → Message
  other_message : Text → Message

-- `readDataFromConnection`: what goes to the input channel.
unfoldable pub read_data_from_connection : List Message → List Text
read_data_from_connection [] = []
read_data_from_connection (failed ∷ messages) = []
read_data_from_connection (text_message bytes ∷ messages) =
    bytes ∷ read_data_from_connection messages
read_data_from_connection (other_message bytes ∷ messages) = read_data_from_connection messages

-- What wakes `saveActivity`.
pub data Wake : Type 0 where
  stop : Wake
  tick : Wake

-- `saveActivity`: what it sends to the input channel.
unfoldable pub save_activity : List Wake → List Text
save_activity [] = []
save_activity (stop ∷ wakes) = []
save_activity (tick ∷ wakes) = [] ∷ save_activity wakes
