-- ===== src/Connection/Tests.antt =====
-- The theorems on the life of a connection at concrete calls.
use telepathy_haze.Connection.Disconnects.{
  shuts_down, new_connection, IsDisconnectedOnce, starts, connected, Call, disconnected_once,
  disconnected, step,
}
use telepathy_haze.Connection.{Base, start_connecting, Connection, PrplInfo}
use telepathy_haze.Prelude.{List, [], false, ◌∷◌, some, true, fold}

-- The base connection that takes every status.
abbrev takes_all : Base
takes_all = record { changed = λ _ s. s }

abbrev jabber : PrplInfo
jabber = record {
  has_icon_spec = true;
  has_add_deny = false;
  no_password = false;
  password_optional = false;
}

abbrev calls : List Call
calls = starts jabber 9 ∷ connected jabber ∷ shuts_down ∷ disconnected ∷ []

disconnected_once_example :
    IsDisconnectedOnce (fold (step takes_all) (new_connection true (some "secret")) calls)
disconnected_once_example = disconnected_once takes_all true (some "secret") calls

abbrev online : Connection
online = (start_connecting takes_all jabber 9 (new_connection true (some "secret"))).0
