-- ===== src/Lib.antt =====
-- go-listener, a Go library that opens network listeners from a string or a JSON object, wraps
-- them with the PROXY protocol and TLS, and gets certificates for them.
--
-- How the parts interact. Open and OpenJSON (open.go) look the type of a specification up in the
-- table of listener.go and call its opener (builtin.go, tls/listener.go), which opens a socket, or
-- opens an inner specification with Open or OpenJSON and wraps the result. The listeners at work
-- are in proxy/listener.go, which reads a header (proxy/header.go) from each connection, multi.go
-- and unix/listener.go. A TLS listener takes its certificates from the package cert.
--
--   Common: Go's strings and byte slices as lists of bytes, the functions of strings, bytes and
--     strconv that the sources call, the outcome of a call (a value, an error or a panic), and
--     lemmas on lists.
--   Net, Json: addresses, slices with their bounds, big-endian numbers, connections and
--     io.ReadFull; the values of a decoded JSON object.
--   System: what the openers do to the system as a state that each of them passes on: the open
--     sockets, the files, the descriptors that were closed and the count of system calls. Each
--     call can fail, as an environment decides by the count.
--   Registry, Builtin, Https, Open: listener.go, builtin.go, tls/listener.go, and open.go with
--     close.go. A function keeps the name of its source in snake case: openTCPListener is
--     open_tcp_listener, Open is open_spec. What one opener does behind a test is a definition of
--     its own. Open and OpenJSON call each other through the openers, so that they take fuel for
--     the nesting of specifications; more than the bytes of a string or the fields and objects of
--     an object is enough.
--   Registry.Programs, Registry.Inits: the calls of RegisterListenerType that a program makes,
--     those of the two init functions among them.
--   Https.Serving: the GetCertificate of the tls.Config that openHTTPSListener makes, over the
--     functions of the package cert, with the ACME manager as a parameter.
--   Unix, Unix.Watch: Listen and the watched listener of unix/listener.go. The deferred calls of
--     Listen are the cleanup that runs where it returns. Unix.Watch.Files adds the files and the
--     seconds to the watched listener; the timer fires every five seconds, and watch is ready for
--     it.
--   Proxy.Header: proxy/header.go. ReadHeader is read_header, Format is format.
--   Proxy.Conn: proxy/conn.go. as_conn is the connection that the methods of a proxyConn make of
--     it.
--   Serve, Proxy.Listener, Multi: the goroutines of proxy/listener.go, with the errors of
--     proxy/error.go, and of multi.go as a step relation. A state holds a task for each goroutine,
--     at the call or the select where it blocks; a step is one goroutine going on to its next such
--     place, and steps come in any order. A step that sends a value needs a caller blocked in
--     Accept. Serve holds what the two share, as a record of steps and laws that each of them
--     fills. The inner Accept can return a connection or an error at any time; a select can take
--     each channel that is ready.
--   Proxy.Handler: handleConnection as a function of the seconds at which the bytes of its
--     connection arrive, with the read deadline. A reader sees what arrives before the deadline,
--     and then its error.
--   Multi.Inner: a MultiListener with the listeners that it aggregates, whose sockets Close
--     closes in the world of System.
--   Tlsutil: tlsutil/hello.go. The handshake is any program that reads, and in Tlsutil.Conns one
--     that also writes, closes and sets deadlines; the bytes arrive in any pieces.
--   Cert.Hello, Cert.KeyTypes, Cert.Load, Cert.Cache, Cert.Dir, Cert.Auto: cert/sni.go,
--     cert/keytype.go, cert/cert.go, cert/cache.go, cert/dir.go and cert/auto.go. The PEM and
--     X.509 decoders are parameters. The loop over the blocks of a file takes one more fuel than
--     the file has bytes, which is enough where a block takes a byte. A load of the cache sees the
--     files at two times, at os.Stat and at os.ReadFile.
--   Cert.Sources: GetCertificateFromFile and GetCertificateFromDirectory of cert/file.go and
--     cert/dir.go, in a call that nothing interrupts.
--   Cert.Cache.Shared: cert/globalcache.go, and the calls of all goroutines as a step relation.
--     Each operation under the mutex and each call of the system is a step, and the files may
--     change between any two.
--   Pipeline: the layers of an open listener at work, one on another. Passes says by the
--     structure of the listener which connections a caller of Accept may get: a PROXY layer is in
--     a run of Proxy.Listener on what its inner listener passes on, and tls.Server is a parameter.
--   Tests, Proxy.Header.Tests: the theorems at concrete inputs.
--
-- Not modelled: what a program does with a connection that Accept returned; the clients, but for
-- the bytes that arrive from them; the timers, but for what happens when they fire; the ACME
-- client and crypto/tls, which are other libraries; and mutexes, each operation under one being a
-- single step.
mod Common
pub mod Net
pub mod Json
pub mod System
pub mod Unix
pub mod Registry
pub mod Builtin
pub mod Https
pub mod Open
pub mod Proxy
pub mod Cert
pub mod Serve
pub mod Multi
pub mod Pipeline
pub mod Tlsutil
mod Tests
