-- ===== src/Ci/Git/Names.antt =====
-- The names of the tags: ddtrace/ext/git.py and ddtrace/ext/ci.py.
use dd_trace_py.Base.{String}

abbrev pub branch : String
branch = "git.branch"

abbrev pub commit_sha : String
commit_sha = "git.commit.sha"

abbrev pub repository_url : String
repository_url = "git.repository_url"

abbrev pub tag : String
tag = "git.tag"

abbrev pub author_name : String
author_name = "git.commit.author.name"

abbrev pub author_email : String
author_email = "git.commit.author.email"

abbrev pub author_date : String
author_date = "git.commit.author.date"

abbrev pub committer_name : String
committer_name = "git.commit.committer.name"

abbrev pub committer_email : String
committer_email = "git.commit.committer.email"

abbrev pub committer_date : String
committer_date = "git.commit.committer.date"

abbrev pub commit_message : String
commit_message = "git.commit.message"

abbrev pub stage_name : String
stage_name = "ci.stage.name"

abbrev pub job_name : String
job_name = "ci.job.name"

abbrev pub job_url : String
job_url = "ci.job.url"

abbrev pub pipeline_id : String
pipeline_id = "ci.pipeline.id"

abbrev pub pipeline_name : String
pipeline_name = "ci.pipeline.name"

abbrev pub pipeline_number : String
pipeline_number = "ci.pipeline.number"

abbrev pub pipeline_url : String
pipeline_url = "ci.pipeline.url"

abbrev pub provider_name : String
provider_name = "ci.provider.name"

abbrev pub workspace_path : String
workspace_path = "ci.workspace_path"

abbrev pub os_architecture : String
os_architecture = "os.architecture"

abbrev pub os_platform : String
os_platform = "os.platform"

abbrev pub os_version : String
os_version = "os.version"

abbrev pub runtime_name : String
runtime_name = "runtime.name"

abbrev pub runtime_version : String
runtime_version = "runtime.version"
