-- ===== src/Mantlemint/Client.antt =====
-- mantlemint/client.go and mantlemint/appcreator.go: the local ABCI client, which calls the
-- application under a lock. The application is a parameter.
use mantlemint.Prelude.{ℕ, suc, Option, none, some, ok, err, panic, Exec, pure, ◌>>=◌}
use mantlemint.Bytes.{Bytes}

-- the methods of `types.Application`
pub data Method : Type 0 where
  info set_option deliver_tx check_tx query commit init_chain begin_block end_block : Method
  list_snapshots offer_snapshot load_snapshot_chunk apply_snapshot_chunk : Method

-- The calls of the client; `later` is an `...Async` method and `now` a `...Sync` one.
pub data Call : Type 0 where
  set_response_callback error flush_later echo_later flush_now echo_now : Call
  later : Method → Call
  now : Method → Call

-- how a call holds the client's RWMutex: not at all, for reading, or for writing
pub data Guard : Type 0 where
  unguarded reading writing : Guard

unfoldable pub guard_of_method : Method → Guard
guard_of_method query = unguarded
guard_of_method info = reading
guard_of_method _ = writing

unfoldable pub guard_of : Call → Guard
unfolding guard_of_method
guard_of set_response_callback = writing
guard_of error = unguarded
guard_of flush_later = unguarded
guard_of echo_later = writing
guard_of flush_now = unguarded
guard_of echo_now = unguarded
guard_of (later method) = guard_of_method method
guard_of (now method) = guard_of_method method

-- A method of the application may panic. `Commit` takes no request, so `Request commit` is `Unit`.
pub record Application : Type 1 where
  pub State : Type 0
  pub Request : Method → Type 0
  pub Response : Method → Type 0
  pub handle : (method : Method) → Request method → Exec State (Response method)

-- types.Request and types.Response, tagged by method
pub data AnyRequest (app : Application) : Type 0 where
  flush_request : AnyRequest app
  echo_request : Bytes → AnyRequest app
  request : (method : Method) → app.Request method → AnyRequest app

pub data AnyResponse (app : Application) : Type 0 where
  echo_response : Bytes → AnyResponse app
  response : (method : Method) → app.Response method → AnyResponse app

pub record ReqRes (app : Application) : Type 0 where
  pub request : AnyRequest app
  pub response : Option (AnyResponse app)

-- The client and what its callback changes, of a type `Out`. `app.Callback` is nil until it is set.
pub record Client (app : Application) (Out : Type 0) : Type 0 where
  pub state : app.State
  pub callback : Option (AnyRequest app → AnyResponse app → Out → Out)
  pub out : Out

-- newLocalReqRes
new_local_req_res : {app : Application} → AnyRequest app → Option (AnyResponse app) → ReqRes app
new_local_req_res req res = record { request = req; response = res }

module _ {app : Application} {Out : Type 0} where
  -- SetResponseCallback
  unfoldable pub set_response_callback_to :
      (AnyRequest app → AnyResponse app → Out → Out) → Exec (Client app Out) Unit
  set_response_callback_to cb c = (ok tt, record c { callback = some cb })

  -- callback: a nil function panics
  unfoldable pub call_back : AnyRequest app → AnyResponse app → Exec (Client app Out) (ReqRes app)
  unfolding new_local_req_res
  call_back req res c = elim c.callback [
    | none ↦ (err panic, c)
    | some cb ↦ (ok (new_local_req_res req (some res)), record c { out = cb req res c.out })
  ]

  -- the method of the application that a call is about
  unfoldable pub on_app :
      (method : Method) → app.Request method → Exec (Client app Out) (app.Response method)
  on_app method req c =
      let (res, state) = app.handle method req c.state in (res, record c { state = state })

  -- FlushAsync, EchoAsync and the thirteen others, InfoAsync to ApplySnapshotChunkAsync
  unfoldable pub flush_async : Exec (Client app Out) (ReqRes app)
  unfolding new_local_req_res
  flush_async = pure (new_local_req_res flush_request none)

  unfoldable pub echo_async : Bytes → Exec (Client app Out) (ReqRes app)
  unfolding call_back
  echo_async msg = call_back (echo_request msg) (echo_response msg)

  unfoldable pub request_async :
      (method : Method) → app.Request method → Exec (Client app Out) (ReqRes app)
  unfolding call_back on_app
  request_async method req =
      on_app method req >>= λ res. call_back (request method req) (response method res)

  -- FlushSync, EchoSync and the thirteen others, InfoSync to ApplySnapshotChunkSync
  unfoldable pub flush_sync : Exec (Client app Out) Unit
  flush_sync = pure tt

  unfoldable pub echo_sync : Bytes → Exec (Client app Out) Bytes
  echo_sync msg = pure msg

  unfoldable pub request_sync :
      (method : Method) → app.Request method → Exec (Client app Out) (app.Response method)
  unfolding on_app
  request_sync method req = on_app method req

-- Mutexes are named by numbers; `fresh` is the next that is not in use.
-- NewConcurrentQueryClient: the mutex of the new client, and the next name
unfoldable pub new_concurrent_query_client : Option ℕ → ℕ → ℕ × ℕ
new_concurrent_query_client none fresh = (fresh, suc fresh)
new_concurrent_query_client (some mtx) fresh = (mtx, fresh)

-- NewABCIClient, of the creator with the mutex `mtx`
unfoldable pub new_abci_client : ℕ → ℕ → ℕ × ℕ
unfolding new_concurrent_query_client
new_abci_client mtx fresh = new_concurrent_query_client (some mtx) fresh
