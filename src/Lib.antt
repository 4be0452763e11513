-- ===== src/Lib.antt =====
-- Elektrine's browser code: models of the parts that keep state or make decisions, and what is
-- proved of them.
--
-- Base: lists and maps over the native numbers, signed numbers, the stable sort of JavaScript,
-- strings with trim and truthiness.
--
-- Nerve: the background worker of the Nerve browser extension
-- (clients/nerve-extension/background.js, lib/storage.js, lib/crypto.js; the copy under
-- apps/elektrine_web/priv/nerve-extension is the same text). Types holds its data and Env, which
-- stands for new URL, toLowerCase, localeCompare, the answers of the server, crypto.subtle and
-- JSON on the metadata. Effects is the worker's state and the monad of its asynchronous
-- functions, Storage is lib/storage.js, Crypto the payloads and the associated data of
-- lib/crypto.js, Urls the checks of senders and hosts, Session the passphrase and
-- getNerveSession, Ranking rankEntries and findExistingEntry, Fill and Save the two flows,
-- Messages handleMessage, Worker the events. Stable is about properties that single writes keep;
-- the files below Worker, Fill, Save and Ranking are about the handlers.
--
-- A message is handled to its end before the next event, and Date.now() does not move while it
-- is: the model has no interleaving of two handlers at an await. Time moves by the event wait
-- alone; the event timeout fires the passphrase timer when it is due, and nothing forces it to
-- fire. The calls of chrome.storage and chrome.tabs succeed. The server's answers have the fields
-- that the worker reads, with strings where it reads strings. Strings are lists of code points,
-- so no lone surrogates. The content script and the extension's pages are not modelled.
--
-- Calls: the call client (apps/elektrine/assets/js/webrtc_client.js). Types holds its messages
-- and Client its fields and methods, Machine what happens to it, one event at a time: a call of
-- the application, a signal, an event of the platform, a timer, or an await that settles. A
-- method is cut at every await: what is left of it is a Task of the client, and the platform
-- settles the tasks in any order, with a value or with an error. A signal leaves only through a
-- channel that is joined. The peer connection is its signaling state alone, which moves as the
-- platform documents, and null_error is the message of the TypeError that a method on a null
-- connection throws. The tracks of the streams, their toggles and the logging are not modelled.
--
-- Nerve.Password: createPassword (lib/crypto.js) on a list of the draws of
-- crypto.getRandomValues, which stands for the loop that draws again: Classes and Made are about
-- the characters, Draws about the number of draws, Uniform about the index that a draw gives.
--
-- Vault: the unlocked key of a browser tab (apps/elektrine/assets/js/hooks/vault_session.js, and
-- the two derivations of vault_crypto.js). Types holds its state and Env, which stands for
-- base64, HKDF and the quota of sessionStorage; Session is the module, with featureKey and
-- featureHmacKey cut at their await. A listener does not call the session. Recovery is the
-- recovery code (vault_crypto.js), of whatever bytes were drawn, and Secret the wrapping with a
-- secret and the values of features.
--
-- Notify: the hook that reads the notifications that are seen
-- (apps/elektrine/assets/js/hooks/notification_visibility.js): Hook holds its state and
-- callbacks, Marks the counting of ids, Tracked the invariant. The platform's observer reports an
-- element only while it observes it; a page's update replaces the cards before updated() runs.
--
-- Chat: the encrypted chat (apps/elektrine/assets/js/hooks/chat_e2ee_hook.js and
-- chat_e2ee_crypto.js). Types holds its data and Env, which stands for crypto.subtle, base64,
-- SHA-256, JSON.stringify and stableJson, localeCompare and the random values, numbered in the
-- order in which they are drawn. Store is what a browser keeps, in slots for indexedDB and for
-- the localStorage of older versions; Devices is stableDevices and the hashes, Trust
-- ensureDevicesTrusted, Keys and Send conversationKeyForDevices and encryptMessage, Plaintexts
-- the texts that were sent, Receive rawConversationKey and decryptMessageElement, Submit
-- handleSubmit. Exchange puts a sender and a receiver together, Rotation reading and sending. The
-- calls of a page run one after the other, so no key is being prepared or asked for when a call
-- starts; the calls of indexedDB and localStorage succeed, and the payloads of keys have a key.
-- The making of the browser's own device, the search index, the labels and the switch for
-- encryption are not modelled.
--
-- Voice: the voice channels (apps/elektrine/assets/js/hooks/voice_channel_hook.js). Types holds
-- the page's state; a peer is an object with its connection, of which the page keeps a number,
-- since a method goes on with its object after an await. Peers holds the presences and the peers,
-- Signals the negotiation cut at every await, Machine the events. The platform chooses which
-- awaits it fulfils and when, but rejects a description that the connection's signaling state
-- does not allow; what a description says is not looked at. The channel's events reach the page
-- only while the channel is its session's; the candidates that waited are handed over in one go.
-- Tidy and Safety are about all events, Initiator and Handshake about a pair of pages.
--
-- Files: the file explorer (apps/elektrine/assets/js/hooks/file_explorer_hook.js). Rows holds the
-- active row, the selection and the width of the tree, Drag the drags and the resizing, Keys the
-- clicks and the keys, Machine the events; indices are integers, since -1 stands for no row. An
-- event carries what the page found under the pointer, and what toLowerCase makes of a key;
-- classes, focus rings and the cursor are not modelled.
--
-- Markdown: the preview of markdown (apps/elektrine/assets/js/markdown_helpers.js). Text holds
-- texts as lists of code points and the methods of strings, Href sanitizeMarkdownHref, Inline
-- processMarkdownInline, Lines the lines of markdownToHtml, Wrap their join and the lists around
-- the items, Editor the buttons and the panel. The expressions with the global flag are read on
-- the parts of the text between their delimiters. Tagged, Trim, Marks, Links, Safety and
-- Wrap.Tagged follow the tags through the steps, Quotes and Anchors the double quotes and the
-- links of a line, Schemes reads a scheme as the URL standard does.
--
-- Api: the client of the server's interface (clients/nerve-extension/lib/api.js), which the
-- background worker calls; there the calls are parameters. Types holds the values of JSON, the
-- requests and Env, which stands for new URL, toString, fetch and the conversions to strings.
-- Address is normalizeServerUrl, Form appendFormValue, Request the rest; the state is the list of
-- the requests that went out. An attribute that is undefined is one that is absent.
--
-- Capture: what the extension captures to Kairo from the context menu
-- (clients/nerve-extension/background.js, lib/kairo_capture.js). Types holds the platform, with
-- decodeURIComponent, parseInt, toISOString, the size of a blob and the answers of the remote
-- server; Selection is normalizeSelection, Source kairoSourceAttrs and kairoErrorMessage,
-- Filename downloadFilename, RemoteFile captureFileToKairo, Menu the menu's items, the listener
-- and captureContextToKairo. The requests to Elektrine are those of Api; Acts is the list of what
-- goes out, the calls of chrome.action among it, which succeed. Time stands still during a
-- capture. The regular expressions are read as scans of the text; a character stands for a UTF-16
-- unit.
--
-- Mailbox: the keys of the private mailbox
-- (apps/elektrine/assets/js/hooks/mailbox_private_crypto.js). Types holds a page's imported keys
-- and Env, which stands for base64, scrypt, AES-GCM, RSA, UTF-8, JSON.parse and the random bytes;
-- Wrap is the wrapping under a passphrase or under the vault's key, Unlock the two ways to unlock
-- a mailbox and the opening of envelopes, Status the texts and fields of the forms. Master takes
-- the key from the session of Vault, to which nothing else happens while the key is asked for.
-- Pem is a new pair of keys and the PEM text of its public half, whose lines take as much fuel as
-- there are characters. The notices are not modelled.
--
-- Presence: the tracker that sets a user away (apps/elektrine/assets/js/hooks/presence_hooks.js).
-- Tracker holds its state and events; time moves by the event wait, and the timer fires when it
-- is due. Idle is about the time without an activity; the server's two events come at any time.
pub mod Base
pub mod Nerve
pub mod Capture
pub mod Calls
pub mod Vault
pub mod Notify
pub mod Chat
pub mod Voice
pub mod Files
pub mod Markdown
pub mod Api
pub mod Mailbox
pub mod Presence
