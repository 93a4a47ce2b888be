-- ===== src/Lib.antt =====
-- telepathy-haze is a Telepathy connection manager: it lets Telepathy clients, which speak D-Bus,
-- use the protocols of libpurple. Each connection to a protocol has an account of libpurple. The
-- program stands between two libraries that keep most of the state, telepathy-glib and libpurple,
-- and its own work is to keep the two views of contacts, groups, messages, presences and the
-- connection in agreement.
--
-- The parts, and how they interact:
-- The connection (src/connection.c) makes an account, starts it, asks for passwords and ends it.
-- It owns the contact list (src/contact-list.c) and the factory of text channels
-- (src/im-channel-factory.c), which makes the channels (src/im-channel.c); libpurple calls these
-- through its UI operations and signals, clients call them through D-Bus. The presence
-- (src/connection-presence.c), the aliases, the avatars and the capabilities are mixins of the
-- connection. The manager of call channels (src/media-manager.c) makes the call channels
-- (src/media-channel.c); the session of a call has a backend (src/media-backend.c) with a stream
-- (src/media-stream.c) for each of its contents. What libpurple asks the user for (src/request.c)
-- goes to the connection if it is a password.
--
-- Telepathy is what the code takes from telepathy-glib: the handle repository as functions between
-- identifiers and handles, 0 being no handle. Purple is what it takes from libpurple's buddy list:
-- a state with operations whose documented behaviour are the laws of the record IsBlist. Both have
-- a concrete Sample that meets the laws.
--
-- ContactList/State is struct _HazeContactListPrivate with the signals and the calls of
-- libpurple's callbacks as a list. ContactList/Publish: request_authorize is
-- haze_request_authorize, close_account_request is haze_close_account_request,
-- accept_publish_request and reject_publish_request carry the source's names, and publish_state is
-- the publish part of haze_contact_list_dup_states. ContactList/Roster has the buddies: blist_add
-- and blist_remove are the changes of the buddy list with the signals buddy_added_cb and
-- buddy_removed_cb, and request_subscription, remove_contact, dup_contacts and dup_states are the
-- functions of the base class that the file implements. ContactList/Groups has the operations on
-- groups, with the two helpers of the source, prep_remove_from_group and remove_many_from_group.
-- The modules below these hold the proofs, by what they prove.
--
-- ImChannel is src/im-channel.c: close, destroy, dispose, set_chat_state, resend_typing_cb, and
-- the conversation with its timer, which haze_create_conversation and haze_destroy_conversation of
-- src/im-channel-factory.c keep. ImChannel/Send is haze_im_channel_send, ImChannel/Receive is
-- haze_im_channel_receive with _make_message and _make_delivery_report; ImChannel/Life runs any
-- calls on a channel. The queue of the message mixin is a list of messages.
--
-- ImFactory is src/im-channel-factory.c. The table of channels is an association list, none after
-- close_all; request is haze_im_channel_factory_request, im_channel_closed_cb the callback of the
-- signal "closed", close_channel and destroy_channel are the D-Bus calls on a channel of the table
-- with that callback, write_im and conversation_updated_cb the calls of libpurple. ImFactory/Kept
-- and ImFactory/Calls run any calls on a factory.
--
-- Presence is src/connection-presence.c: the tables statuses, primitives and status_indices with
-- the functions that read them.
--
-- Aliasing is src/connection-aliasing.c: get_alias, set_aliases with set_aliases_foreach, and the
-- calls that answer with aliases; the aliases that libpurple keeps are the record Names with the
-- laws of IsNames.
--
-- Capabilities is src/connection-capabilities.c: Reports has the get_ functions, with the
-- attributes of contacts, and Updates has advertise_capabilities, update_capabilities,
-- caps_changed_cb and _emit_capabilities_changed. Avatars is src/connection-avatars.c: Tokens
-- reads avatars, Setting sets them; the icons of libpurple are the record Icons with the laws of
-- IsIcons. Mail is src/connection-mail.c, where the arrays of a call are the lists of Columns,
-- from the item that a pointer stands at.
--
-- MediaChannel is src/media-channel.c: Pending has the requests that wait for streams, Session the
-- callbacks of libpurple with close and dispose, Requests has request_contents and the ways to ask
-- for streams, Members adds and removes members, and Removal lists and removes streams; Calls runs
-- any calls on a channel. MediaStream is src/media-stream.c, and MediaBackend src/media-backend.c,
-- whose functions carry the prefix backend_ where the stream has one of the same name.
-- MediaManager is src/media-manager.c, with requestotron and the callbacks of its channels; the
-- context 0 of a channel is the manager's request, the others are of D-Bus calls.
--
-- Requests is src/request.c: requests of libpurple with fields, by numbers that stand for their
-- addresses, together with the prompts of Connection.
--
-- Connection is the life of a connection in src/connection.c: start_connecting, connected_cb,
-- disconnected_cb, prompt_cb (_haze_connection_password_manager_prompt_cb), request_password,
-- cancel_password_request, shut_down and report_disconnect_reason. ConnectionError is
-- map_purple_error_to_tp, and Account is haze_connection_create_account with set_option.
--
-- Protocol is src/protocol.c: translate_parameters is haze_protocol_translate_parameters,
-- jabber_fixup and lookup_mapping carry their functions' names (haze_protocol_lookup_param).
-- Parameters is haze_protocol_get_parameters with what it calls; a spec of a parameter has its
-- name, its setter and its default, which are what the translation and the defaults of clients
-- need. Username is get_username, new_connection and identify_account of the same file.
--
-- Conventions: `none` as the result of an operation is a failed assertion, a use of freed memory
-- or of a null pointer, a read outside of an array, or a conversion of numbers that C leaves
-- undefined; pointers have 8 bytes. Errors that the caller is told of are values. What the code
-- emits or asks of a library is a list in the state, the newest first. No loop needs fuel: each
-- runs over a list, but for the one that removes doubles from the names of streams, which runs as
-- often as there are names (MediaChannel/Removal). A callback of a library that the code calls is
-- taken not to call back into the code, but for initiating and for ending a call, where a
-- parameter says what is told of, and calls follow one another, as in the one thread of the main
-- loop. Tables are association lists whose insertion replaces what the key had. Handles and flags
-- are natural numbers, and flags are tested and joined bit by bit; the indices of call channels
-- and of their streams wrap around at 32 bits, no other number of the code does.
--
-- Not modelled: the types and filters of the protocol's parameters, notifications of libpurple,
-- the blocking of contacts and the list of all groups, the start of the program, the registration
-- of D-Bus interfaces, and reference counts.
--
-- Prelude holds the shared names: tests and conditionals (Prelude/Tests), lists and loops
-- (Prelude/Lists), sets of handles (Prelude/Sets) and tables (Prelude/Table).
pub mod Account
pub mod Aliasing
pub mod Avatars
pub mod Capabilities
pub mod Connection
pub mod ConnectionError
pub mod ContactList
pub mod ImChannel
pub mod ImFactory
pub mod Mail
pub mod MediaBackend
pub mod MediaChannel
pub mod MediaManager
pub mod MediaStream
pub mod Parameters
pub mod Prelude
pub mod Presence
pub mod Protocol
pub mod Purple
pub mod Requests
pub mod Telepathy
pub mod Username
