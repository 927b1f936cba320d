-- ===== src/Startup/Redirector.antt =====
-- startup-module/src/redirector.rs: the redirects from HTTP to HTTPS.
use pandora_web_server.Base.{
  Bool, not, Option, none, some, ◌>>=◌, Bytes, List, [], ◌∷◌, ◌++◌, codes, length, split_once,
  is_empty, if◌then◌else◌,
}
use pandora_web_server.StandardResponse.{to_string, Response, body_of}
use pandora_web_server.Modules.{Result, ok, err}
use pandora_web_server.Startup.Listen.{ListenAddr, Socket, tcp}
use pandora_web_server.Startup.Certificates.{get, insert_names}

pub record TlsRedirectorConf : Type 0 where
  pub listen : List ListenAddr
  pub redirect_to : Bytes
  -- in the order of the iteration
  pub redirect_by_name : List (List Bytes × Bytes)

pub record RedirectorApp : Type 0 where
  pub redirect_to : Bytes
  pub redirect_by_name : List (Bytes × Bytes)

-- What the redirector reads of a request. `host` is the header Host, if it is text, and `uri_host` is
-- the host of the request's address.
pub record Request : Type 0 where
  pub host : Option Bytes
  pub uri_host : Option Bytes
  pub path_and_query : Option Bytes
  pub is_head : Bool

-- The host without its port.
abbrev without_port : Bytes → Bytes
without_port host = elim (split_once 58 host) [ none ↦ host | some (name, port) ↦ name ]

unfoldable pub server_name : Request → Option Bytes
server_name request = elim request.host [
  | none ↦ request.uri_host
  | some host ↦ some (without_port host)
]

abbrev unwrap_or : Option Bytes → Bytes → Bytes
unwrap_or none text = text
unwrap_or (some t) text = t

unfoldable pub target : RedirectorApp → Option Bytes → Bytes
target app name = unwrap_or (name >>= λ host. get host app.redirect_by_name) app.redirect_to

-- `request_filter`; `text` is `response_text` of the status 308.
unfoldable pub request_filter : RedirectorApp → Bytes → Request → Response
unfolding server_name target to_string
request_filter app text request = record {
  status = 308;
  headers =
      (codes "Content-Length", to_string (length text))
      ∷ (codes "Content-Type", codes "text/html;charset=utf-8")
      ∷ (
        codes "Location",
        codes "https://" ++ target app (server_name request) ++ unwrap_or request.path_and_query [],
      )
      ∷ [];
  body = body_of (not request.is_head) text;
}

unfoldable pub names_of : List (List Bytes × Bytes) → List (Bytes × Bytes) → List (Bytes × Bytes)
names_of [] entries = entries
names_of ((names, to) ∷ more) entries = names_of more (insert_names names to entries)

-- The errors that the code explains itself.
pub record Explained (E : Type 0) : Type 0 where
  pub no_target : E
  pub tls_address : E

module _ {T E : Type 0} (explained : Explained E) where
  -- The loop over the addresses.
  unfoldable pub listen_on : List ListenAddr → Result E (List (Socket T))
  listen_on [] = ok []
  listen_on (a ∷ listen) =
      let rest = listen_on listen in
      if a.tls
      then err explained.tls_address
      else elim rest [ err e ↦ err e | ok sockets ↦ ok (tcp a.addr a.ipv6_only ∷ sockets) ]

  abbrev with_sockets :
      TlsRedirectorConf → Result E (List (Socket T)) → Result E (RedirectorApp × List (Socket T))
  with_sockets conf (err e) = err e
  with_sockets conf (ok sockets) = ok (
    record { redirect_to = conf.redirect_to; redirect_by_name = names_of conf.redirect_by_name [] },
    sockets,
  )

  -- `create_redirector`: the app and the sockets of its service.
  unfoldable pub create_redirector : TlsRedirectorConf → Result E (RedirectorApp × List (Socket T))
  unfolding listen_on names_of
  create_redirector conf =
      if is_empty conf.redirect_to
      then err explained.no_target
      else with_sockets conf (listen_on conf.listen)

  -- `TlsRedirectorConf::to_redirector`.
  unfoldable pub to_redirector :
      TlsRedirectorConf → Result E (Option (RedirectorApp × List (Socket T)))
  unfolding create_redirector
  to_redirector conf = elim conf.listen [
    | [] ↦ ok none
    | a ∷ listen ↦ elim (create_redirector conf) [ err e ↦ err e | ok service ↦ ok (some service) ]
  ]
