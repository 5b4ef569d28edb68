-- ===== src/Streams/Open.antt =====
-- Streams of devices: `open_stream`, `sys_OpenNull`, `sys_OpenTerminal` and `sys_GetTerminalDevices`.
use disasteros.Common.{ℕ, ◌≡◌, ◌<◌, refl, subst, Option, none, some, List, [], ◌∷◌, arith}
use disasteros.Common.Int.{ℤ, pos, minus_one}
use disasteros.Devices.{DeviceType, dev_null, dev_serial, device_open, device_no, dev_fops}
use disasteros.World.{World, FileOps, Outcome, returned, or_fault, Cpu, curproc, max_proc}
use disasteros.Streams.Table.{fcb_reserve, fcb_unreserve}
use disasteros.Streams.Calls.{attach}
use disasteros.Streams.Frame.{or_fault-returned}
use disasteros.Streams.Refs.{refs-of_pcb, IsValid}
use disasteros.Streams.Reserve.{Reserved, fcb_reserve_lem}

-- `open_stream` behind `device_open`.
unfoldable pub finish_open : Cpu → (fid f : ℕ) → (opened : Option (ℕ × FileOps)) → World → Outcome ℤ
finish_open c fid f none w =
    or_fault (fcb_unreserve (curproc c w) (fid ∷ []) (f ∷ []) w) λ w'. returned minus_one w'
finish_open c fid f (some (obj, ops)) w = returned (pos fid) (attach f obj ops w)

-- `open_stream` behind `FCB_reserve`.
unfoldable pub open_device :
    Cpu → DeviceType → (minor : ℕ) → Option (List ℕ × List ℕ) → World → Outcome ℤ
open_device c major minor none w = returned minus_one w
open_device c major minor (some ([], fcbs)) w = returned minus_one w
open_device c major minor (some (fid ∷ _, [])) w = returned minus_one w
open_device c major minor (some (fid ∷ _, f ∷ _)) w =
    finish_open c fid f (device_open major minor w) w

-- `open_stream`
unfoldable pub open_stream : Cpu → DeviceType → (minor : ℕ) → World → Outcome ℤ
open_stream c major minor w =
    let (o, w') = fcb_reserve (curproc c w) 1 w in open_device c major minor o w'

-- `sys_OpenNull`
unfoldable pub sys_open_null : Cpu → World → Outcome ℤ
sys_open_null c w = open_stream c dev_null 0 w

-- `sys_OpenTerminal`
unfoldable pub sys_open_terminal : Cpu → (termno : ℕ) → World → Outcome ℤ
sys_open_terminal c termno w = open_stream c dev_serial termno w

-- `sys_GetTerminalDevices`
unfoldable pub sys_get_terminal_devices : World → ℕ
sys_get_terminal_devices w = device_no dev_serial w

-- What the reference counts do not depend on.
pub IsValid-same :
    (w w' : World)
    → w'.pcb ≡ w.pcb
    → ((f : ℕ) → (w'.fcb f).refcount ≡ (w.fcb f).refcount)
    → w'.fcb_freelist ≡ w.fcb_freelist
    → IsValid w
    → IsValid w'
IsValid-same w w' p r l v = record {
  counted = λ f. ground (arith, r f, refs-of_pcb w w' f p, v.counted f);
  unused = λ f. ground (arith, l, refs-of_pcb w w' f p, v.unused f);
  no_leak = λ f. ground (arith, l, refs-of_pcb w w' f p, v.no_leak f);
}

pub attach-IsValid : (f a : ℕ) (ops : FileOps) (w : World) → IsValid w → IsValid (attach f a ops w)
attach-IsValid f a ops w v = IsValid-same w (attach f a ops w) refl (λ g. ground arith) refl v

-- A new stream of the process `p`: its file id was free, and stands now for an FCB with the object
-- `a` and the operations `ops`.
pub record NewStream (p fid a : ℕ) (ops : FileOps) (w w' : World) : Type 0 where
  pub free : (w.pcb p).fidt fid ≡ none
  pub in_range : fid < 16
  pub fcb : ℕ
  pub stands_for : (w'.pcb p).fidt fid ≡ some fcb
  pub streamobj : (w'.fcb fcb).streamobj ≡ a
  pub streamfunc : (w'.fcb fcb).streamfunc ≡ ops

-- What is reserved gets its stream.
pub attach-NewStream :
    (p fid f a : ℕ) (ops : FileOps) (w w' : World)
    → (w.pcb p).fidt fid ≡ none
    → fid < 16
    → (w'.pcb p).fidt fid ≡ some f
    → NewStream p fid a ops w (attach f a ops w')
attach-NewStream p fid f a ops w w' free range stands = record {
  free = free;
  in_range = range;
  fcb = f;
  stands_for = stands;
  streamobj = ground arith;
  streamfunc = ground arith;
}

finish_open_lem :
    (c : Cpu) (p i f : ℕ) (is fs : List ℕ) (ops : FileOps) (o : Option (ℕ × FileOps)) (w w₁ : World)
    {fid : ℕ} {w' : World}
    → IsValid w₁
    → Reserved p 1 w (some (i ∷ is, f ∷ fs), w₁)
    → ((a : ℕ) (ops' : FileOps) → o ≡ some (a, ops') → ops' ≡ ops)
    → finish_open c i f o w₁ ≡ returned (pos fid) w'
    → IsValid w' × (a : ℕ) × NewStream p fid a ops w w'
unfolding finish_open
finish_open_lem c p i f is fs ops none w w₁ v r k e =
    let (_, _, g) = or_fault-returned (fcb_unreserve (curproc c w₁) (i ∷ []) (f ∷ []) w₁) _ e in cc
finish_open_lem c p i f is fs ops (some (a, ops')) w w₁ {fid} {w'} v r k e =
    let same : attach f a ops' w₁ ≡ w' = ground arith in
    let at : i ≡ fid = ground arith in
    (
      subst IsValid same (attach-IsValid f a ops' w₁ v),
      a,
      subst (λ (u : World). NewStream p fid a ops w u) same
          (subst (λ (j : ℕ). NewStream p j a ops w (attach f a ops' w₁)) at
            (subst (λ (t : FileOps). NewStream p i a t w (attach f a ops' w₁)) (k a ops' refl)
              (attach-NewStream p i f a ops' w w₁ r.2.2 r.2.1 r.4.0))),
    )

device_open-ops :
    (major : DeviceType) (minor : ℕ) (w : World) (a : ℕ) (ops : FileOps)
    → device_open major minor w ≡ some (a, ops)
    → ops ≡ dev_fops major
unfolding device_open
device_open-ops major minor w a ops e = ground arith

open_device_lem :
    (c : Cpu) (p : ℕ) (major : DeviceType) (minor : ℕ) (o : Option (List ℕ × List ℕ)) (w w₁ : World)
    {fid : ℕ} {w' : World}
    → IsValid w₁
    → Reserved p 1 w (o, w₁)
    → open_device c major minor o w₁ ≡ returned (pos fid) w'
    → IsValid w' × (a : ℕ) × NewStream p fid a (dev_fops major) w w'
unfolding open_device
open_device_lem c p major minor none w w₁ v r e = cc
open_device_lem c p major minor (some ([], fcbs)) w w₁ v r e = cc
open_device_lem c p major minor (some (i ∷ is, [])) w w₁ v r e = cc
open_device_lem c p major minor (some (i ∷ is, f ∷ fs)) w w₁ v r e =
    finish_open_lem c p i f is fs (dev_fops major) (device_open major minor w₁) w w₁ v r
      (device_open-ops major minor w₁) e

-- With the reference counts right, and a calling process of the table, an `open_stream` that returns a
-- file id leaves them right; the file id was free, and stands for an FCB whose operations are those of
-- the device.
pub open_stream_lem :
    (c : Cpu) (major : DeviceType) (minor : ℕ) {w : World} {fid : ℕ} {w' : World}
    → IsValid w
    → curproc c w < max_proc
    → open_stream c major minor w ≡ returned (pos fid) w'
    → IsValid w' × (a : ℕ) × NewStream (curproc c w) fid a (dev_fops major) w w'
unfolding open_stream
open_stream_lem c major minor {w} v h e =
    let (valid, r) = fcb_reserve_lem (curproc c w) 1 v h in
    let (o, w₁) = fcb_reserve (curproc c w) 1 w in
    open_device_lem c (curproc c w) major minor o w w₁ valid r e
