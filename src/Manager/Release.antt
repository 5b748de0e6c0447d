-- ===== src/Manager/Release.antt =====
-- `Close` of userspace/bpf/loader.go releases all that a manager answers for.
use Prim.Native.String.{String}
use text.Mathlib.Text.{◌==◌ as str_eq}
use container_lb.Base.{
  ◌≡◌, ◌⊎◌, inl, inr, ◌∙◌, refl, Bool-cases, Option, none, some, List, [], ◌∷◌, ◌++◌,
}
use mathlib.Core.Option.{some-injective}
use container_lb.Maps.{Kernel}
use container_lb.Go.Action.{Error}
use container_lb.Go.Dict.{Dict, lookup}
use container_lb.Go.Resources.{IsClosed}
use container_lb.Manager.{Manager, LinkApi}
use container_lb.Manager.Lifecycle.{Loader, Loaded, add_error, close_links, close_xdp, close}
use container_lb.Manager.Balance.{IsLawful}
use container_lb.Manager.Closing.{IsOwned, objects, bridge, veth, IsTracked}

module _ {C B H P L O W : Type 0} (k : Kernel C B H P) (loader : Loader C B H P O W)
    (api : LinkApi L W) (IsOpen : W → L ⊎ O → Type 0) (laws : IsLawful loader api IsOpen) where
  no_errors : (xs ys : List Error) → xs ++ ys ≡ [] → (xs ≡ []) × (ys ≡ [])
  no_errors [] ys h = (refl, h)
  no_errors (x ∷ xs) ys h = absurd (cc h)

  add_error_nil :
      (f : Error → Error) (e : Option Error) (xs : List Error)
      → add_error loader api f e xs ≡ []
      → (e ≡ none) × (xs ≡ [])
  add_error_nil f none xs h = (refl, h)
  add_error_nil f (some e) xs h = absurd (cc h)

  released_link :
      (l : L) (w : W) → (api.close l w).0 ≡ none → IsClosed IsOpen (inl l) w (api.close l w).1
  released_link l w h = rw h at (laws.close l w)

  released_objects :
      (o : O) (w : W)
      → (loader.close_objects o w).0 ≡ none
      → IsClosed IsOpen (inr o) w (loader.close_objects o w).1
  released_objects o w h = rw h at (laws.close_objects o w)

  -- The loop without an error opens nothing, and leaves none of its links open.
  close_links_only :
      (entries : Dict L) (m : Manager C B H P L W)
      → (close_links loader api entries m).0 ≡ []
      → (x : L ⊎ O) → IsOpen (close_links loader api entries m).1.world x
      → IsOpen m.world x
  unfolding close_links
  close_links_only [] m h x up = up
  close_links_only ((name, l) ∷ rest) m h x up =
      let (fine, more) = add_error_nil (Error.detach_xdp name) (api.close l m.world).0 _ h in
      (released_link l m.world fine).only x (close_links_only rest _ more x up)

  close_links_gone :
      (entries : Dict L) (m : Manager C B H P L W)
      → (close_links loader api entries m).0 ≡ []
      → (j : String) (l : L) → lookup j entries ≡ some l
      → IsOpen (close_links loader api entries m).1.world (inl l)
      → ⊥
  unfolding close_links lookup
  close_links_gone [] m h j l at up = absurd (cc at)
  close_links_gone ((name, l') ∷ rest) m h j l at up =
      let (fine, more) = add_error_nil (Error.detach_xdp name) (api.close l' m.world).0 _ h in
      elim (Bool-cases (str_eq name j)) [
        | inl same ↦
            let e = some-injective l' l (rw same at at) in
            (released_link l' m.world fine).gone
              (close_links_only rest _ more (inl l') (rw (← e) at up))
        | inr other ↦ close_links_gone rest _ more j l (rw other at at) up
      ]

  -- After a `Close` that returns `nil`, whatever is open was open in `w`: the links to the veths,
  -- met by the iteration in any order, the link to the bridge and the objects are all closed.
  pub close_tracked :
      (w : W) (range_order : Dict L → Dict L) (r : Loaded C B H P L O W) (l : L)
      → ((d : Dict L) (name : String) → lookup name (range_order d) ≡ lookup name d)
      → IsTracked k loader api IsOpen laws w r.objs l r.manager
      → r.xdp_link ≡ some l
      → (close loader api range_order r).0 ≡ []
      → (x : L ⊎ O) → IsOpen (close loader api range_order r).1.world x
      → IsOpen w x
  unfolding close
  close_tracked w range_order r l all b linked h x up =
      let entries = range_order r.manager.veth_links in
      let links = close_links loader api entries r.manager in
      let xdp = close_xdp loader api r.xdp_link links.1.world in
      let objs = loader.close_objects r.objs xdp.1 in
      let (ok_links, others) = no_errors links.0 _ h in
      let (ok_xdp, ok_objects) = add_error_nil Error.detach_ingress xdp.0 _ others in
      let (fine_objects, _) = add_error_nil Error.close_objects objs.0 [] ok_objects in
      let fine_xdp : (api.close l links.1.world).0 ≡ none = rw linked at ok_xdp in
      let no_objects = released_objects r.objs xdp.1 fine_objects in
      let no_link = released_link l links.1.world fine_xdp in
      let after_xdp : IsOpen (api.close l links.1.world).1 x =
        rw linked at (no_objects.only x up) in
      let after_links = no_link.only x after_xdp in
      elim (b.tracked x (close_links_only entries r.manager ok_links x after_links)) [
        | inl before ↦ before
        | inr mine ↦ absurd (
            released x mine up after_xdp after_links no_objects no_link (λ j l' at.
              close_links_gone entries r.manager ok_links j l' (all r.manager.veth_links j ∙ at)))
      ]
    where
      released :
          {u v s t : W} (y : L ⊎ O)
          → IsOwned r.objs l r.manager.veth_links y
          → IsOpen t y
          → IsOpen v y
          → IsOpen u y
          → IsClosed IsOpen (inr r.objs) s t
          → IsClosed IsOpen (inl l) u v
          → ((j : String) (l' : L)
              → lookup j r.manager.veth_links ≡ some l'
              → IsOpen u (inl l')
              → ⊥)
          → ⊥
      released y objects at_end after_xdp after_links o b links = o.gone at_end
      released y bridge at_end after_xdp after_links o b links = b.gone after_xdp
      released y (veth j l' at) at_end after_xdp after_links o b links = links j l' at after_links
