-- ===== src/Jobs/Arguments.antt =====
-- run_command of validator/work/containers.py: the arguments of `docker run` for a job. shlex is
-- third-party here: `split` stands for shlex.split, none where it raises, and the quoting that
-- joins the arguments into one command line is left out.
use microtensor_compute.Common.{
  ◌*◌, ◌&&◌, not, true, false, List, [], ◌∷◌, ◌++◌, Option, none, some, Dict, if◌then◌else◌, ltb,
  is_empty, any_of,
}
use microtensor_compute.Common.Sort.{sorted_by}
use microtensor_compute.Common.Text.{Text, codes, strip}
use microtensor_compute.Work.Placement.{text_leb}
use microtensor_compute.Jobs.Names.{decimal}
use microtensor_compute.Jobs.Volumes.{VolumeSpec, mount_args}
use microtensor_compute.Jobs.Spec.{JobSpec, PortMapping, port_token, container_name}

abbrev pub Splitter : Type 0
Splitter = Text → Option (List Text)

-- None, as an empty list, both mean that nothing is added.
unfoldable pub user_tokens : Splitter → Text → List Text
unfolding strip
user_tokens split text = elim (is_empty (strip text)) [
  | true ↦ []
  | false ↦ elim (split text) [ none ↦ [] | some tokens ↦ tokens ]
]

unfoldable pub joined : List Text → Text
joined [] = []
joined (part ∷ []) = part
joined (part ∷ more ∷ parts) = part ++ codes "," ++ joined (more ∷ parts)

unfoldable pub device_args : List Text → List Text
device_args [] = []
device_args (device ∷ devices) =
    codes "--device" ∷ (device ++ codes ":" ++ device ++ codes ":rwm") ∷ device_args devices

unfoldable pub port_args : List PortMapping → List Text
unfolding port_token
port_args [] = []
port_args (mapping ∷ ports) = codes "-p" ∷ port_token mapping ∷ port_args ports

-- The items are sorted as pairs; the keys of a dictionary differ, so they decide.
unfoldable pub env_args : Dict Text Text → List Text
env_args [] = []
env_args ((key, value) ∷ env) = codes "-e" ∷ (key ++ codes "=" ++ value) ∷ env_args env

unfoldable pub volume_args : List VolumeSpec → List Text
unfolding mount_args
volume_args [] = []
volume_args (volume ∷ volumes) = mount_args volume ++ volume_args volumes

abbrev pub label : Text → Text → List Text
label name value = codes "--label" ∷ (name ++ codes "=" ++ value) ∷ []

abbrev pub entrypoint_args : List Text → List Text
entrypoint_args [] = []
entrypoint_args (first ∷ rest) = codes "--entrypoint" ∷ first ∷ []

abbrev pub all_but_first {ℓ} : {A : Type ℓ} → List A → List A
all_but_first [] = []
all_but_first (first ∷ rest) = rest

-- The options, before the image.
unfoldable pub options : Splitter → JobSpec → List Text
unfolding joined device_args port_args env_args volume_args user_tokens any_of decimal sorted_by
    text_leb
options split spec =
    codes "docker" ∷ codes "run" ∷ codes "-d" ∷ codes "--name" ∷ container_name spec ∷ []
    ++ codes "--restart" ∷ codes "unless-stopped" ∷ []
    ++ (if spec.isolation then codes "--runtime" ∷ codes "sysbox-runc" ∷ [] else [])
    ++ codes "--gpus" ∷ (codes "\"device=" ++ joined spec.gpu_uuids ++ codes "\"") ∷ []
    ++ device_args spec.devices
    ++ codes "--cap-add" ∷ codes "NET_ADMIN" ∷ []
    ++ codes "--sysctl" ∷ codes "net.ipv4.conf.all.src_valid_mark=1" ∷ []
    ++ (if ltb 0 spec.memory_gb
        then codes "--memory" ∷ (decimal (spec.memory_gb * 1024) ++ codes "m") ∷ []
        else [])
    ++ (if ltb 0 spec.cpus then codes "--cpus" ∷ decimal spec.cpus ∷ [] else [])
    ++ (if ltb 0 spec.storage_gb && spec.quotas_supported
        then codes "--storage-opt" ∷ (codes "size=" ++ decimal spec.storage_gb ++ codes "G") ∷ []
        else [])
    ++ codes "--shm-size" ∷ spec.shm_size ∷ []
    ++ port_args spec.ports
    ++ label (codes "mt.job") spec.job_id
    ++ label (codes "mt.kind") spec.kind
    ++ label (codes "mt.owner") (codes "validator")
    ++ (if is_empty spec.owner then [] else label (codes "mt.tenant") spec.owner)
    ++ codes "-e" ∷ codes "NVIDIA_DRIVER_CAPABILITIES=all" ∷ []
    ++ env_args (sorted_by (λ a b. text_leb a.0 b.0) spec.env)
    ++ volume_args spec.volumes
    ++ (if any_of (λ volume. volume.encrypted) spec.volumes && not spec.isolation
        then codes "--cap-add"
          ∷ codes "SYS_ADMIN"
          ∷ codes "--security-opt"
          ∷ codes "apparmor=unconfined"
          ∷ []
        else [])
    ++ entrypoint_args (user_tokens split spec.entrypoint)

unfoldable pub run_arguments : Splitter → JobSpec → List Text
unfolding options user_tokens
run_arguments split spec =
    options split spec
    ++ spec.image ∷ []
    ++ all_but_first (user_tokens split spec.entrypoint)
    ++ user_tokens split spec.command
