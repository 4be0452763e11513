-- ===== src/Capture/Menu.antt =====
-- background.js: the context menu, and what a click in it does (installContextMenus, the listener,
-- captureContextToKairo).
use elektrine.Base.{
  ℕ, String, Bool, true, false, ◌||◌, Option, none, some, List, [], ◌∷◌, ◌===◌, if◌then◌else◌,
  or_text, text_of,
}
use elektrine.Base.Effects.{lift, ◌>>=◌, ◌>>◌}
use elektrine.Nerve.Types.{Settings}
use elektrine.Nerve.Effects.{State}
use elektrine.Nerve.Urls.{safe_host}
use elektrine.Api.Request.{create_kairo_source}
use elektrine.Capture.Types.{Platform, Info, Tab}
use elektrine.Capture.Source.{Capture, kairo_source_attrs}
use elektrine.Capture.Acts.{
  Act, M, require, call, set_action_badge, connected, not_connected, reported, settings_in,
}
use elektrine.Capture.RemoteFile.{capture_file_to_kairo}

abbrev page_menu : String
page_menu = "kairo-capture-page"

abbrev selection_menu : String
selection_menu = "kairo-capture-selection"

abbrev file_menu : String
file_menu = "kairo-capture-file"

abbrev allowed_page_patterns : List String
allowed_page_patterns =
    "https://*/*" ∷ "http://localhost/*" ∷ "http://127.0.0.1/*" ∷ "http://[::1]/*" ∷ []

-- The argument of `chrome.contextMenus.create`.
pub record Item : Type 0 where
  pub id : String
  pub title : String
  pub contexts : List String
  pub document_url_patterns : Option (List String)
  pub target_url_patterns : Option (List String)

-- The items of the menu once they are installed, where `chrome.contextMenus` can be used.
unfoldable install_context_menus : (can_create : Bool) (installed : List Item) → List Item
install_context_menus false installed = installed
install_context_menus true installed =
    record {
      id = page_menu;
      title = "Capture page to Kairo";
      contexts = "page" ∷ [];
      document_url_patterns = some allowed_page_patterns;
      target_url_patterns = none;
    }
    ∷ record {
      id = selection_menu;
      title = "Capture selection to Kairo";
      contexts = "selection" ∷ [];
      document_url_patterns = some allowed_page_patterns;
      target_url_patterns = none;
    }
    ∷ record {
      id = file_menu;
      title = "Save file to Kairo";
      contexts = "image" ∷ "video" ∷ "audio" ∷ "link" ∷ [];
      document_url_patterns = none;
      target_url_patterns = some allowed_page_patterns;
    }
    ∷ []

abbrev tab_url : Option Tab → Option String
tab_url none = none
tab_url (some tab) = tab.url

abbrev tab_title : Option Tab → Option String
tab_title none = none
tab_title (some tab) = tab.title

module _ (p : Platform) where
  abbrev save_context : Settings → ℕ → Info → Option Tab → M (Unit {0})
  save_context settings now info tab = do
    require (connected settings) not_connected
    let url = or_text (text_of info.page_url) (text_of (tab_url tab))
    let title = or_text (text_of (tab_title tab)) (or_text (safe_host p.worker url) "Captured page")
    let selection_text =
        if info.menu_item_id === selection_menu then text_of info.selection_text else ""
    let capture : Capture = record { url = url; title = title; selection_text = selection_text }
    created ← call (
        create_kairo_source p.api settings (kairo_source_attrs p.worker (p.iso_string now) capture))
    set_action_badge p "OK" "#6f8b74"

  unfoldable pub capture_context_to_kairo : State → Info → Option Tab → List Act
  capture_context_to_kairo s info tab =
      reported p "Kairo capture failed:"
        ((lift (settings_in s) >>= λ settings. save_context settings s.now info tab) [])

  -- The listener of `chrome.contextMenus.onClicked`.
  unfoldable pub on_clicked : State → Info → Option Tab → List Act
  unfolding capture_file_to_kairo capture_context_to_kairo
  on_clicked s info tab =
      if info.menu_item_id === file_menu
      then capture_file_to_kairo p s info
      else if info.menu_item_id === page_menu || info.menu_item_id === selection_menu
      then capture_context_to_kairo s info tab
      else []
