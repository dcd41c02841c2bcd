-- ===== src/Agents/Cursor/Document.antt =====
-- The sandbox document of Cursor, agents/cursor.py, read back.
use codex_cursor_devstack.Base.{
  ◌≡◌, refl, ap, String, ◌<>◌, Bool, true, false, Option, none, some, List, [], ◌∷◌,
}
use codex_cursor_devstack.Base.Value.{Value, Items, lookup, text_items}
use codex_cursor_devstack.Policy.Choices.{WorkspaceAccess, security_choice}
use codex_cursor_devstack.Agents.Specs.{GeneratedPolicyFileSpec}
use codex_cursor_devstack.Agents.Cursor.{workspace_type, sandbox_document}

-- The entry of an object, and the texts of a list.
abbrev pub entry : String → Value → Option Value
entry k (Value.object fields) = lookup k fields
entry k v = none

abbrev pub texts_of : Items → List String
texts_of Items.nil = []
texts_of (Items.cons (Value.text s) vs) = s ∷ texts_of vs
texts_of (Items.cons v vs) = texts_of vs

abbrev pub texts : Value → List String
texts (Value.list items) = texts_of items
texts v = []

abbrev pub sandbox_type : WorkspaceAccess → String
sandbox_type WorkspaceAccess.read = "workspace_readonly"
sandbox_type w = "workspace_readwrite"

-- A sandbox document of Cursor: its type says what the workspace allows, the default denies, the
-- destinations are allowed, and loopback, private and link-local addresses are denied.
pub record IsSandboxDocument (w : WorkspaceAccess) (destinations : List String) (v : Value)
    : Type 0 where
  pub type : entry "type" v ≡ some (Value.text (sandbox_type w))
  pub network : Value
  pub has_network : entry "networkPolicy" v ≡ some network
  pub default : entry "default" network ≡ some (Value.text "deny")
  pub allow : Value
  pub has_allow : entry "allow" network ≡ some allow
  pub allowed : texts allow ≡ destinations
  pub deny : Value
  pub has_deny : entry "deny" network ≡ some deny
  pub denied :
      texts deny
      ≡ "127.0.0.0/8" ∷ "10.0.0.0/8" ∷ "172.16.0.0/12" ∷ "192.168.0.0/16" ∷ "169.254.0.0/16"
        ∷ "::1/128" ∷ "fc00::/7" ∷ "fe80::/10" ∷ []

texts-text_items : (ss : List String) → texts (Value.list (text_items ss)) ≡ ss
unfolding text_items
texts-text_items [] = refl
texts-text_items (s ∷ ss) = ap (λ ts. s ∷ ts) (texts-text_items ss)

sandbox_type-workspace_type : (w : WorkspaceAccess) → workspace_type w ≡ sandbox_type w
sandbox_type-workspace_type WorkspaceAccess.read = refl
sandbox_type-workspace_type WorkspaceAccess.write = refl
sandbox_type-workspace_type WorkspaceAccess.no_access = refl

pub sandbox_document-IsSandboxDocument :
    (w : WorkspaceAccess) (ds : List String) → IsSandboxDocument w ds (sandbox_document w ds)
unfolding sandbox_document lookup text_items
sandbox_document-IsSandboxDocument w ds = record {
  type = ap (λ t. some (Value.text t)) (sandbox_type-workspace_type w);
  network = _;
  has_network = refl;
  default = refl;
  allow = _;
  has_allow = refl;
  allowed = texts-text_items ds;
  deny = _;
  has_deny = refl;
  denied = refl;
}

-- The one file of a sandbox: the JSON text of a document, mounted read-only as Cursor's sandbox file.
pub record IsSandboxFile (dumps : Value → String) (w : WorkspaceAccess) (destinations : List String)
    (f : GeneratedPolicyFileSpec) : Type 0 where
  pub target : f.target ≡ "/home/node/.cursor/sandbox.json"
  pub read_only : f.read_only ≡ true
  pub document : Value
  pub content : f.content ≡ dumps document <> "\n"
  pub is_document : IsSandboxDocument w destinations document

abbrev pub FilesAsked :
    (Value → String) → Bool → WorkspaceAccess → List String → List GeneratedPolicyFileSpec → Type 0
FilesAsked dumps true w ds (f ∷ []) = IsSandboxFile dumps w ds f
FilesAsked dumps true w ds fs = ⊥
FilesAsked dumps false w ds fs = fs ≡ []
