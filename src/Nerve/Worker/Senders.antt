-- ===== src/Nerve/Worker/Senders.antt =====
-- Who may ask the worker for what.
use elektrine.Base.{ℕ, String, ◌≡◌, ◌≢◌, refl, true, false, Option, some, arith}
use elektrine.Nerve.Types.{Env, Url, ok, err}
use elektrine.Nerve.Effects.{State}
use elektrine.Nerve.Urls.{
  Sender, not_allowed, allowed_page_url, allowed_remote_file_url, assert_content_script_sender,
  assert_extension_page_sender,
}
use elektrine.Nerve.Fill.{Credentials, Page, filled, fill_entry, resolve_staged_fill}
use elektrine.Nerve.Messages.{
  Message, staged_answer, resolve_fill, open_options, unsupported, fill, get_passphrase, passphrase,
  credentials, handle_message,
}

abbrev pub denial : Message → String
denial unsupported = "Unsupported message type."
denial _ = not_allowed

-- A message other than the one that opens the options page, from a sender that is neither an
-- allowed page in a tab nor a page of the extension, gets an error and changes nothing.
pub handle_message-stranger :
    (env : Env) (m : Message) (sender : Sender) (s : State)
    → assert_content_script_sender env sender ≡ err not_allowed
    → assert_extension_page_sender env sender ≡ err not_allowed
    → m ≢ open_options
    → handle_message env m sender s ≡ (err (denial m), s)
unfolding handle_message
handle_message-stranger env open_options sender s a b ne = absurd (ne refl)
handle_message-stranger env m sender s a b ne = ground arith

-- The passphrase itself goes to the extension's own pages only.
pub handle_message-passphrase :
    (env : Env) (m : Message) (sender : Sender) (s : State) (p : String)
    → (handle_message env m sender s).0 ≡ ok (passphrase p)
    → (m ≡ get_passphrase) × (assert_extension_page_sender env sender ≡ ok tt)
unfolding handle_message
handle_message-passphrase env get_passphrase sender s p h = (refl, ground arith)
handle_message-passphrase env m sender s p h = absurd (ground arith)

-- Credentials go only to a page that asked for this entry, or for what was staged on its tab, and
-- that runs in a tab on an allowed address.
pub handle_message-credentials :
    (env : Env) (m : Message) (sender : Sender) (s : State) (c : Credentials)
    → ((handle_message env m sender s).0 ≡ ok (credentials c)
        → (allowed_page_url env sender.url ≡ true)
          × ((id : ℕ) × (page_url : String) × (m ≡ fill id page_url)
              × ((fill_entry env id page_url s).0 ≡ ok c)))
      × ((id : ℕ)
          → (handle_message env m sender s).0 ≡ ok (staged_answer (filled id c))
          → (allowed_page_url env sender.url ≡ true)
            × ((page : Option Page) × (m ≡ resolve_fill page)
                × ((resolve_staged_fill env sender.tab_id page s).0 ≡ ok (filled id c))))
unfolding handle_message assert_content_script_sender
handle_message-credentials env (fill id page_url) sender s c =
    (λ h. (ground arith, (id, page_url, refl, ground arith)), λ i h. absurd (ground arith))
handle_message-credentials env (resolve_fill page) sender s c =
    (λ h. absurd (ground arith), λ i h. (ground arith, (page, refl, ground arith)))
handle_message-credentials env m sender s c =
    (λ h. absurd (ground arith), λ i h. absurd (ground arith))

-- WHATWG's `hostname` keeps the brackets of an IPv6 address. So a page on http://[::1], which the
-- context menus and the file capture accept, is no allowed page for messages.
allowed_page_url-ipv6_loopback :
    (env : Env) (url : String) (u : Url)
    → env.parse_url url ≡ some u
    → u.protocol ≡ "http:"
    → u.hostname ≡ "[::1]"
    → (allowed_remote_file_url env url ≡ true) × (allowed_page_url env (some url) ≡ false)
unfolding allowed_remote_file_url allowed_page_url
allowed_page_url-ipv6_loopback env url u p q r = (rw (p, q, r) refl, rw (p, q, r) refl)
