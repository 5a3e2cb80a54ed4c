-- ===== src/Session.antt =====
-- internal/console/web/demo-reset.js: the demo session that all requests of a tab go through, and
-- the dialog that clears the demo. A tab carries the generation of the demo data that it works on;
-- a reset anywhere gives the data a new generation, and a tab that learns of it reloads.
-- The state is the closure's variables and what the tab's storage holds; `location.reload` is
-- counted. The requests that were sent are listed; each may be answered at any later moment.
pub mod Pinned
pub mod Dialog
mod Tests
use afterglow.Prelude.{
  ℕ, ◌+◌, Bool, true, false, ◌&&◌, ◌||◌, not, List, [], ◌∷◌, ◌++◌, String, Option, none, some,
  str_eq, if◌then◌else◌, Memᴰ, ◌≡◌,
}

-- A generation header or variable: null and the empty text are both false.
abbrev pub truthy : Option String → Bool
truthy none = false
truthy (some s) = not (str_eq s "")

-- `a !== b` on such values.
abbrev pub differs : Option String → Option String → Bool
differs none none = false
differs (some a) (some b) = not (str_eq a b)
differs _ _ = true

pub record Tab : Type 0 where
  pub generation : Option String
  pub invalidated : Bool
  pub writable : Bool  -- whether sessionStorage accepts writes
  pub shared : Bool  -- whether localStorage accepts writes
  pub saved_generation : Option String
  pub proof_saved : Bool
  pub traffic_saved : Bool
  pub broadcast : Option String
  pub reloads : ℕ

-- A document that has just been loaded; `getItem` gives null where it throws.
unfoldable pub load : (writable shared : Bool) → Option String → Option String → Bool → Bool → Tab
load writable shared saved broadcast proof_saved traffic_saved = record {
  generation = if writable then saved else none;
  invalidated = false;
  writable = writable;
  shared = shared;
  saved_generation = saved;
  proof_saved = proof_saved;
  traffic_saved = traffic_saved;
  broadcast = broadcast;
  reloads = 0;
}

unfoldable pub remember : Option String → Tab → Tab
remember next t = record t {
  generation = next;
  saved_generation = if t.writable then next else t.saved_generation;
}

unfoldable pub clear : Option String → Tab → Tab
unfolding remember
clear next t = remember next (record t {
  proof_saved = not t.writable && t.proof_saved;
  traffic_saved = not t.writable && t.traffic_saved;
})

unfoldable pub reload : Option String → Bool → Tab → Tab
unfolding clear
reload next shout t =
    if t.invalidated
    then t
    else let c = clear next (record t { invalidated = true }) in
      record c {
        broadcast = if shout && c.shared then next else c.broadcast;
        reloads = c.reloads + 1;
      }

-- `headers.set("X-Demo-Generation", generation)`, or no header.
abbrev pub header : Tab → Option String
header t = if truthy t.generation then t.generation else none

-- What `send` does with the answer's generation: the tab, and whether it throws.
unfoldable pub send_answer : Bool → Bool → Option String → Tab → Tab × Bool
unfolding reload remember
send_answer resetting ok next t =
    if t.invalidated
    then (t, true)
    else if truthy next && (not resetting || not ok)
    then (if truthy t.generation && differs t.generation next
        then (reload next false t, true)
        else (remember next t, false))
    else (t, false)

-- The `storage` event of another tab's broadcast.
unfoldable pub on_storage : Option String → Tab → Tab
unfolding reload
on_storage new_value t =
    if truthy new_value && truthy t.generation && differs new_value t.generation
    then reload new_value false t
    else t

-- The guarded writes of the two modules that keep a run in the tab's storage: `save` of proof.js
-- and `remember` of foottraffic.js do nothing once the session is inactive.
unfoldable pub save_run : Bool → Tab → Tab
save_run proof t = if t.invalidated || not t.writable then t else record t {
  proof_saved = t.proof_saved || proof;
  traffic_saved = t.traffic_saved || not proof;
}

-- A request on its way, with the generation header that it carries.
pub record Call : Type 0 where
  pub resetting : Bool
  pub sent : Option String

pub record World : Type 0 where
  pub tab : Tab
  pub calls : List Call

-- What can happen to a tab. `send` throws before it sends where the tab is invalidated.
pub data Step : World → World → Type 0 where
  send :
      (w : World) (resetting : Bool)
      → w.tab.invalidated ≡ false
      → Step w
          (record w { calls = record { resetting = resetting; sent = header w.tab } ∷ w.calls })
  answer :
      (w : World) (call : Call) (ok : Bool) (next : Option String)
      → Memᴰ call w.calls
      → Step w (record w { tab = (send_answer call.resetting ok next w.tab).0 })
  storage :
      (w : World) (new_value : Option String)
      → Step w (record w { tab = on_storage new_value w.tab })
  reset :
      (w : World) (next : String)
      → truthy (some next) ≡ true
      → Step w (record w { tab = reload (some next) true w.tab })
  save : (w : World) (proof : Bool) → Step w (record w { tab = save_run proof w.tab })

pub data Reach (w : World) : World → Type 0 where
  here : Reach w w
  next : {u v : World} → Reach w u → Step u v → Reach w v
