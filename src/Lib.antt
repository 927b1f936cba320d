-- ===== src/Lib.antt =====
-- Verification of pandora-web-server: the modules of the server that decide what a request gets.
--
-- The parts and how they interact. A router maps a host and a path to a value. It is built by
-- `RouterBuilder`, which keeps the entries of each host sorted by path, and is compiled to two
-- tries, one for the named hosts and one for the fallback host. A merger takes configurations with
-- matchers for hosts and paths and produces a router; the header rules are such matchers. The static
-- files module answers with a range of a file, depending on conditional headers and on encodings.
-- The auth module decides whether a request may go on, by Basic authentication or by a page with
-- a session cookie. The rewrite module changes or redirects addresses by rules, which a merger
-- turns into a router. The virtual hosts module chooses the handler of a request with a router, and
-- the common log module writes a line for each request. The IP anonymization module changes the
-- address of the client, the compression module sets the session's compression, the response module
-- sends a fixed response, and the upstream module forwards requests to another server. A struct of
-- such handlers is a handler, which asks its fields one after the other, and the server runs the
-- phases of a request with one handler, on the sockets and with the certificates of its
-- configuration, which is merged from files.
--
-- Which file models which part:
-- Base: numbers, lists, text and 64-bit integers, shared by all.
-- Trie (pandora-module-utils/src/trie.rs): Trie/Prefix has `common_prefix_length`, Trie/Builder
--   `TrieBuilder` and `push`, Trie/Flat `Trie` with `build`, `lookup` and `retrieve`.
-- Router (pandora-module-utils/src/router.rs): Router/Path has `Path`, Router/Table
--   `RouterBuilder` with `merge_value` and `push`, Router/Routes `Router` with `build`, `lookup` and
--   `retrieve`.
-- Merger (pandora-module-utils/src/merger.rs): Merger/Matcher has the trait `PathMatch`, as a
--   record of functions, and its implementations; Merger/Table `Merger` with `ensure_host`,
--   `ensure_entry` and `push`; Merger/Merge `merge`, `merge_into_merger` and `push_merger`.
-- Headers (headers-module/src): Headers/Rules has `MatchRules` and Headers/Settings the kinds of
--   headers (configuration.rs), Headers/Handler the merging of the rules (handler.rs).
-- StandardResponse (pandora-module-utils/src/standard_response.rs): pages and redirects.
-- StaticFiles (static-files-module/src): Range (range.rs), Metadata (metadata.rs), FileWriter
--   (file_writer.rs), Encoding (compression_algorithm.rs), Mime (mime_matcher.rs and
--   configuration.rs), Paths (path.rs), ResponseHeaders (metadata.rs and compression.rs), Handler
--   (handler.rs) and Options (configuration.rs and `try_from` of handler.rs).
-- Auth (auth-module/src): Login (common.rs), Basic (basic.rs), Settings (lib.rs), Mode (`try_from` and
--   `request_filter` of lib.rs, and the response of basic.rs), and Page (page.rs), with the responses
--   in Page/Json and `page_auth` in Page/Handler.
-- Rewrite (rewrite-module/src): Interpolation has `VariableInterpolation` (configuration.rs), and
--   Handler the rules and `RewriteHandler` (handler.rs).
-- VirtualHosts (virtual-hosts-module/src): Configuration has `try_from`, Handler the dispatch.
-- CommonLog (common-log-module/src): Fields (configuration.rs), Handler (handler.rs) and Writer
--   (writer.rs).
-- IpAnonymization (ip-anonymization-module/src/lib.rs): the address of the client.
-- Compression (compression-module/src/lib.rs), Response (response-module/src/lib.rs) and Upstream
--   (upstream-module/src/lib.rs): the modules of these names.
-- Modules (pandora-module-utils/src/lib.rs and pandora-module-utils-macros/src/
--   derive_request_filter.rs): the trait `RequestFilter` as a record of functions, and the derived
--   handler as `◌and◌` of two handlers.
-- Deserialize (pandora-module-utils/src/deserialize.rs, `load_from_files` of pandora-module-utils/src/
--   lib.rs, and pandora-module-utils-macros/src/derive_deserialize_map.rs): the merging of
--   configurations.
-- Server (startup-module/src/lib.rs): `DefaultApp`.
-- Startup (startup-module/src): Listen (`ListenAddr` and `into_server` of configuration.rs),
--   Certificates (`into_certificate`, `into_callbacks` and `certificate_callback` of
--   configuration.rs) and Redirector (redirector.rs).
--
-- How the code is modelled. Bytes and code points are numbers of ℕ, and byte slices and strings are
-- lists of them. `u64` wraps around at 2 ^ 64; lengths and indices of vectors do not, as vectors do
-- not get that long. Changes in place are functions from the old state to the new one, an error or a
-- panic is `none`, or `err` where the error matters. A HashMap is the list of its entries in the order of its iteration. The binary
-- searches are searches from the front, which find the same in a sorted list without duplicates.
-- Functions of other libraries are parameters: the parsing of floating-point numbers, bcrypt, base64,
-- tokens, forms, regular expressions, addresses, names of headers, MIME types, the conversion of
-- header values, the rate limiter, the clock, the rendering of pages, the calls that give a connection
-- its certificate and key, and the file system. Header values that a response cannot have, which are errors of the library, are left out. The macro
-- `impl_conf` is a function of its list of fields.
--
-- Fuel. `find_insertion_point` shortens the label in each step and takes its length as fuel,
-- `into_trie_node` takes the number of nodes, `lookup` the number of segments, and `file_response`
-- the number of bytes that are left, as each round sends a byte at least or ends. The search for
-- variables in a text takes the text's length, as each round moves behind two characters at least,
-- and the loop over the certificates of a file takes the file's length, as each round takes a byte.
--
-- What is not modelled: the parsing of YAML, and of the library serde all but what a visitor sees of a
-- value; the attributes of the macros; the interface to the library pingora; the text of pages;
-- diagnostics; the inside of the file system; signals; the entry point of the program.
pub mod Base
pub mod Trie
pub mod Rewrite
pub mod Router
pub mod StandardResponse
pub mod StaticFiles
pub mod Merger
pub mod Modules
pub mod Deserialize
pub mod Upstream
pub mod Startup
pub mod Response
pub mod Compression
pub mod Server
pub mod Headers
pub mod Auth
pub mod IpAnonymization
pub mod VirtualHosts
pub mod CommonLog
