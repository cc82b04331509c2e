-- ===== src/Proxy/Main/Config.antt =====
-- What the main programs read: files, and the configuration of the first TLS asset.
use trustflow.Base.{Bool, List, [], ◌∷◌, Bytes, Str, codes}
use trustflow.Error.{Result, ok, enforce, ◌>>=◌, ◌>>◌}
use trustflow.External.{External}
use trustflow.CryptoUtil.Platform.{Platform}
use trustflow.Proxy.Jwe.{Jose, generate_party_id}
use trustflow.Proxy.Client.Messages.{Resource, ResourceRequest}

unfoldable pub read_file : (P : Platform) → Str → P.Fs → Result Bytes
read_file P file_path s = do
  input ← P.open_in s file_path
  (content, input) ← P.read input (P.get_length input)
  ok content

-- What is taken from yaml-cpp.
pub record Yaml (S : Type 0) : Type 1 where
  pub Node : Type 0
  pub load_file : Str → S → Result Node
  pub get : Node → Str → Node
  pub as_string : Node → Result Str
  pub is_sequence : Node → Bool
  pub items : Node → List Node

module _ {S : Type 0} (X : External) (J : Jose) (Y : Yaml S) where
  unfoldable pub strings : List Y.Node → Result (List Str)
  strings [] = ok []
  strings (n ∷ nodes) = do s ← Y.as_string n; rest ← strings nodes; ok (s ∷ rest)

  -- The loop over the resources.
  unfoldable pub resources_of : List Y.Node → Result (List Resource)
  resources_of [] = ok []
  resources_of (n ∷ nodes) = do
    uri ← Y.as_string (Y.get n (codes "resource_uri"))
    columns ← strings (Y.items (Y.get n (codes "columns")))
    attrs ← Y.as_string (Y.get n (codes "attrs"))
    rest ← resources_of nodes
    ok (record { resource_uri = uri; columns = columns; attrs = attrs } ∷ rest)

  -- `GenResourceRequest` of main.cc.
  unfoldable pub request_of_config : Y.Node → Str → Result ResourceRequest
  request_of_config config cert = do
    party_id ← generate_party_id X J cert
    scope ← Y.as_string (Y.get config (codes "scope"))
    op_name ← Y.as_string (Y.get config (codes "op_name"))
    let resource = Y.get config (codes "resource")
    enforce (Y.is_sequence resource) "resource must be a sequence" []
    resources ← resources_of (Y.items resource)
    env ← Y.as_string (Y.get config (codes "env"))
    global_attrs ← Y.as_string (Y.get config (codes "global_attrs"))
    ok record {
      initiator_party_id = party_id;
      scope = scope;
      op_name = op_name;
      resources = resources;
      env = env;
      global_attrs = global_attrs;
    }
