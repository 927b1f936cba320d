-- ===== src/VirtualHosts/Configuration.antt =====
-- virtual-hosts-module/src/configuration.rs, and the construction of the handler in
-- virtual-hosts-module/src/handler.rs.
use pandora_web_server.Base.{
  Bool, false, not, ◌&&◌, ◌||◌, Option, none, some, ◌>>=◌, Bytes, List, [], ◌∷◌, sort, is_empty,
  bytes_eq, bytes_le, if◌then◌else◌, Eq,
}
use pandora_web_server.Router.Routes.{Router}
use pandora_web_server.Router.Routes
use pandora_web_server.Router.Table.{RouterBuilder}
use pandora_web_server.Router.Table
use pandora_web_server.Merger.Matcher.{PathMatcher}

pub record SubPathConf (C : Type 0) : Type 0 where
  pub strip_prefix : Bool
  pub config : C

-- The subpaths are in the order of the map's iteration.
pub record VirtualHostConf (C : Type 0) : Type 0 where
  pub is_default : Bool
  pub subpaths : List (PathMatcher × SubPathConf C)
  pub config : C

-- `VirtualHostsConf`: the hosts with their configurations, in the order of the map's iteration.
abbrev pub VirtualHostsConf : Type 0 → Type 0
VirtualHostsConf C = List (List Bytes × VirtualHostConf C)

-- `BTreeSet::insert`: the names are sorted and differ.
unfoldable pub insert_name : Bytes → List Bytes → List Bytes
insert_name name [] = name ∷ []
insert_name name (own ∷ names) =
    let later = insert_name name names in
    if bytes_eq name own
    then own ∷ names
    else (if bytes_le name own then name ∷ own ∷ names else own ∷ later)

-- `hosts.retain(..)` and `names.extend(hosts)`.
unfoldable pub extend_names : List Bytes → List Bytes → List Bytes
unfolding insert_name
extend_names names [] = names
extend_names names (host ∷ hosts) =
    extend_names (if is_empty host then names else insert_name host names) hosts

-- The names of a host: the empty one for the first that is marked as default.
abbrev pub names_of : Bool → List Bytes → List Bytes
unfolding extend_names
names_of is_first_default hosts = extend_names (if is_first_default then [] ∷ [] else []) hosts

-- A value of the router: the prefix to strip, if any, and the handler.
abbrev pub Route : Type 0 → Type 0
Route H = Option Bytes × H

module _ {H : Type 0} where
  -- The first loop over the names.
  unfoldable pub push_names : List Bytes → H → RouterBuilder (Route H) → RouterBuilder (Route H)
  push_names [] handler builder = builder
  push_names (host ∷ names) handler builder =
      push_names names handler (Table.push builder host [] (none, handler) (some (none, handler))).0

  -- The loop over the names for one rule.
  unfoldable pub push_subpath :
      List Bytes
      → PathMatcher
      → Option Bytes
      → H
      → RouterBuilder (Route H)
      → RouterBuilder (Route H)
  push_subpath [] rule strip_path handler builder = builder
  push_subpath (host ∷ names) rule strip_path handler builder =
      push_subpath names rule strip_path handler
        (Table.push builder host rule.path (strip_path, handler)
          (if rule.exact then none else some (strip_path, handler))).0

-- `try_into` makes a handler of its configuration, or fails.
module _ {C H : Type 0} (try_into : C → Option H) where
  unfoldable pub push_subpaths :
      List Bytes
      → List (PathMatcher × SubPathConf C)
      → RouterBuilder (Route H)
      → Option (RouterBuilder (Route H))
  unfolding push_subpath
  push_subpaths names [] builder = some builder
  push_subpaths names ((rule, conf) ∷ subpaths) builder = try_into conf.config >>= λ handler.
      push_subpaths names subpaths (
        push_subpath names rule (if conf.strip_prefix then some rule.path else none) handler
          builder)

  -- `subpaths.sort_by_key(|(rule, _)| rule.exact)`.
  unfoldable pub sort_subpaths :
      List (PathMatcher × SubPathConf C) → List (PathMatcher × SubPathConf C)
  sort_subpaths subpaths = sort (λ a b. not (a.0).exact || (b.0).exact) subpaths

  -- The outer loop; `has_default` is whether a default host was found before.
  unfoldable pub push_vhosts :
      Bool → VirtualHostsConf C → RouterBuilder (Route H) → Option (RouterBuilder (Route H))
  unfolding push_names push_subpaths sort_subpaths
  push_vhosts has_default [] builder = some builder
  push_vhosts has_default ((hosts, conf) ∷ vhosts) builder =
      let names = names_of (conf.is_default && not has_default) hosts in
      try_into conf.config >>= λ handler.
      push_subpaths names (sort_subpaths conf.subpaths) (push_names names handler builder)
      >>= λ builder'. push_vhosts (has_default || conf.is_default) vhosts builder'

  -- `VirtualHostsHandler::try_from`; `none` is an error of a configuration, or a panic of the
  -- router.
  unfoldable pub try_from : ⦃e : Eq (Route H)⦄ → VirtualHostsConf C → Option (Router (Route H))
  unfolding push_vhosts
  try_from conf = push_vhosts false conf (record { entries = []; fallbacks = [] }) >>= λ builder.
      Routes.build builder
