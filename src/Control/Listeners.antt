-- ===== src/Control/Listeners.antt =====
-- The listeners of class Controller.
use roo_wifi.Base.{
  ℕ, Bool, false, not, ◌&&◌, ◌||◌, List, [], ◌∷◌, ◌++◌, ◌==◌, if◌then◌else◌, bit_and,
}
use roo_wifi.Control.Interfaces.{Interface, Store}
use roo_wifi.Control.State.{Change, change_code, Controller}

-- Whether a listener is registered.
unfoldable pub is_listed : ℕ → List ℕ → Bool
is_listed listener [] = false
is_listed listener (l ∷ ls) = l == listener || is_listed listener ls

unfoldable pub without : ℕ → List ℕ → List ℕ
without listener [] = []
without listener (l ∷ ls) =
    let rest = without listener ls in if l == listener then rest else l ∷ rest

module _ {r : Interface} {t : Store} where
  -- Controller::addListener
  unfoldable pub add_listener : ℕ → Controller r t → Controller r t
  add_listener listener c =
      if is_listed listener c.listeners
      then c
      else record c { listeners = c.listeners ++ listener ∷ [] }

  -- Controller::removeListener
  unfoldable pub remove_listener : ℕ → Controller r t → Controller r t
  remove_listener listener c = record c { listeners = without listener c.listeners }

  -- One call of a listener in notifyListeners: what it does to the controller is a parameter.
  unfoldable pub notify_one :
      (ℕ → Change → Controller r t → Controller r t)
      → ℕ
      → Change
      → ℕ
      → Controller r t
      → Controller r t
  notify_one react changes change listener c =
      if c.running && not (bit_and changes (change_code change) == 0)
      then react listener change c
      else c

  -- The loop of notifyListeners.
  unfoldable pub notify_each :
      (ℕ → Change → Controller r t → Controller r t) → ℕ → List ℕ → Controller r t → Controller r t
  notify_each react changes [] c = c
  notify_each react changes (l ∷ ls) c = notify_each react changes ls (
      notify_one react changes Change.profiles l
        (notify_one react changes Change.scan l (notify_one react changes Change.station l c)))

  -- Controller::notifyListeners
  unfoldable pub notify_listeners :
      (ℕ → Change → Controller r t → Controller r t) → Controller r t → Controller r t
  notify_listeners react c =
      let c' = record c { pending_changes = 0; notify = false } in
      if c.running then notify_each react c.pending_changes c.listeners c' else c'
